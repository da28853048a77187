-- ===== src/Compact.antt =====
-- The compact unwinder of Sources/KSCrashRecordingCore/Unwind: KSCompactUnwind.c and the decoders.
pub mod Section
pub mod Decode
mod Tests
