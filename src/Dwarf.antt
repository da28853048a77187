-- ===== src/Dwarf.antt =====
-- The unwinder of Sources/KSCrashRecordingCore/Unwind/KSDwarfUnwind.c.
pub mod Reader
pub mod Leb
pub mod Forward
pub mod Entry
pub mod Search
pub mod Registers
pub mod Row
pub mod Cfi
pub mod Expression
pub mod Compile
pub mod Unwind
mod Tests
