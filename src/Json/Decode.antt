-- ===== src/Json/Decode.antt =====
-- The decoder of KSJSONCodec.c: `Text` has the strings, `Number` the numbers, `Callbacks` the
-- interface to the caller and `Element` the recursive descent.
pub mod Callbacks
pub mod Text
pub mod Unescape
pub mod Number
pub mod Digits
pub mod Ends
pub mod Element
