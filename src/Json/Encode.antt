-- ===== src/Json/Encode.antt =====
-- The encoder of KSJSONCodec.c: `Context` has its state, `Text` the strings, `Number` the numbers
-- and `Element` the calls of the public API.
pub mod Context
pub mod Text
pub mod Escape
pub mod Number
pub mod Decimal
pub mod Element
