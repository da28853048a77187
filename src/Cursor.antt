-- ===== src/Cursor.antt =====
-- The stack cursors of Sources/KSCrashRecordingCore: KSStackCursor.c, KSStackCursor_Backtrace.c,
-- KSStackCursor_MachineContext.c and Unwind/KSStackCursor_Unwind.c.
pub mod Stack
pub mod Backtrace
pub mod Unwind
mod Tests
