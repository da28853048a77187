-- ===== src/Json.antt =====
-- Sources/KSCrashRecordingCore/KSJSONCodec.c and include/KSJSONCodec.h.
pub mod Codes
pub mod Encode
pub mod Decode
pub mod Event
pub mod Value
pub mod Splice
mod Tests
