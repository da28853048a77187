-- ===== src/Monitor.antt =====
-- The crash monitors: the registry of Sources/KSCrashRecordingCore/KSCrashMonitorRegistry.c, and
-- the handling of exceptions of KSCrashMonitor.c.
pub mod Registry
pub mod Handling
pub mod Tests
