-- ===== src/File.antt =====
-- Sources/KSCrashRecordingCore/KSFileUtils.c.
pub mod Descriptor
pub mod Writer
pub mod Path
mod Tests
