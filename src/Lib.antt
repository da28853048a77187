-- ===== src/Lib.antt =====
-- KSCrash records crashes of iOS and macOS programs. When one happens, a monitor (of signals, Mach
-- exceptions and so on) calls `notify`, which decides how the exception is to be handled, and then
-- `handle`, which lets every monitor add what it knows to the event, runs the callback that writes
-- the report, and frees the handler's slot. The report is JSON, written while the process is dying
-- by an encoder that allocates nothing, and read back at the next launch by an event decoder.
--
-- Json (Sources/KSCrashRecordingCore/KSJSONCodec.c and include/KSJSONCodec.h)
--   Json/Codes: the status codes, which every function returns.
--   Json/Encode/Context, Text, Number, Element: the encoder. A call takes the context to a status
--     and a context; `>>` stops at the first error, as the `if`s of the source do. The sink is the
--     addJSONData callback, with its user data as a state. Text has appendEscapedString,
--     addEscapedString and addQuotedEscapedString, Number formatDouble, formatInt64 and
--     formatUint64, Element the functions ksjson_add..., ksjson_begin... and ksjson_end....
--   Json/Decode/Callbacks, Text, Number, Element: the decoder. Text has writeUTF8 and
--     decodeString, Number the digits of decodeElement, Element the rest of decodeElement and
--     ksjson_decode. The input is the list of bytes not yet read. Element calls itself on fuel,
--     two for each byte of the input and two more: Ends is about that being enough.
--   Json/Event: the callbacks of a run as data.
--   Json/Value: documents as trees, their text, their events and the calls that write them, which
--     describe the codec independently of it. Write is about the encoder, Front, Layout, Read and
--     RoundTrip are about the decoder.
--   Json/Splice: ksjson_addJSONElement, which decodes with callbacks that call the encoder.
-- Monitor (KSCrashMonitorRegistry.c and KSCrashMonitor.c in Sources/KSCrashRecordingCore)
--   Monitor/Registry: the array of monitors, whose functions are named as in the source without
--     `kscmr_`; what the monitors do is a record `Monitors`. Slots is about adding, Sweep about
--     the loops over the array.
--   Monitor/Handling: `g_state` and notifyException, handleException and what they call. Threads
--     is about the list of handling threads, Table about the decisions, Cycle about the way from
--     notify to handle.
-- File (Sources/KSCrashRecordingCore/KSFileUtils.c)
--   File/Descriptor: the loops of ksfu_writeBytesToFD and ksfu_readBytesFromFD, over a record
--     `System` that answers each call of write and read; a round for each byte is enough fuel,
--     where the system takes at least a byte at once. File/Writer: KSBufferedWriter.
--   File/Path: the last entry of a path, canDeletePath and ksfu_makePath.
-- Memory (Sources/KSCrashRecordingCore/KSMemory.c): the loops that look for readable memory, on how
--   many bytes each call of copySafely copies. Longest is about copyMaxPossible, whose fuel is the
--   number of bytes, and Chunks about ksmem_isMemoryReadable and ksmem_maxReadableBytes.
-- Dwarf (Sources/KSCrashRecordingCore/Unwind/KSDwarfUnwind.c, include/Unwind/KSDwarfUnwind.h)
--   Dwarf/Reader: KSDwarfReader and the functions read..., over a memory that gives a byte for each
--     address and says which words can be copied safely. Addresses and words are 64-bit patterns.
--     Leb has the format of the numbers, Forward says that a reader does not go back.
--   Dwarf/Entry: parseCIE and parseFDE. Dwarf/Search: ksdwarf_findFDE, Sound is about it.
--   Dwarf/Registers, Row: the registers of the two 64-bit architectures, and the row of rules.
--   Dwarf/Cfi: executeCFIInstructions, on fuel. Valid is about its state, Ends about instructions
--     for which a round for each byte is enough, Loops about some for which no fuel is.
--   Dwarf/Expression: evaluateDwarfExpression, with a round for each byte, which Ends shows to be
--     enough. Compile describes expressions as trees.
--   Dwarf/Unwind: applyRegisterRule, ksdwarf_buildCFIRow and ksdwarf_unwind.
-- Compact (Sources/KSCrashRecordingCore/Unwind/KSCompactUnwind.c and the decoders beside it)
--   Compact/Section: kscu_findEntry and what it calls, on the memory of Dwarf/Reader; a round for
--     each entry is enough for a binary search. Covers and Contains are about what is found.
--   Compact/Decode: the decoders of the four architectures. Agrees compares those of the two 64-bit
--     ones with the DWARF unwinder.
-- Cursor (KSStackCursor.c and its kin, and Unwind/KSStackCursor_Unwind.c)
--   Cursor/Stack: what all cursors have. Cursor/Backtrace: the cursor over an array.
--   Cursor/Unwind: the cursor over Compact, Dwarf and the frame pointers, which it tries in turn.
--     Walk is about advancing it until it stops, with a round for each frame up to the largest
--     depth; Chain is about the frame pointers.
-- Images (Sources/KSCrashRecordingCore/KSBinaryImageCache.c)
--   Images: the entries for the images of the loader, whose structures are a record `Loader`, and
--     the scan over all of them. Images/Cache: the sorted cache, its searches, and what the loader's
--     notifier does with it. Sorted is about the order of the entries, Lookup about a look through
--     the cache.
-- Store (Sources/KSCrashRecording/KSCrashReportStoreC.c): the reports as the names in a directory.
--   Store/Ids: getNextUniqueID and initializeIDs. Counts and Deletes are about the IDs that a
--     deletion leaves, Prune about pruneReports.
-- Strings (Sources/KSCrashRecordingCore/KSString.c)
--   Strings/Utf8: ksstring_isNullTerminatedUTF8String, with a round for each byte, which is enough.
--     Text says what a well-formed string is, Accepts that those are accepted. Strings/Hex:
--     ksstring_extractHexValue, with strnstr, with a round for each byte too. Extract is about what
--     it finds.
-- AppState (Sources/KSCrashRecording/Monitors/KSCrashMonitor_AppState.c): the state and the callbacks
--   that load it, which Json/Decode calls. AppState/Notify: the notifications and the save, which
--   calls Json/Encode. Save is about the text of the file, Launch about what goes from one launch
--   to the next.
-- Prelude: names, Boolean tests and lists over the native numbers that all parts share.
--
-- The functions run one at a time: calls may come in any order, but the steps inside one are not
-- interleaved with another's. A length is a number without a bound, where the source has `int`.
-- Doubles are a parameter, and so is what the decoder reads out of bounds. In Dwarf the few
-- bytes that a test of the data that is left adds to a pointer do not wrap it around, where the C
-- is undefined; the sections end that far below the top of the address space.
--
-- Not modelled: Objective-C, Swift and C++ code, the vendored demanglers, log lines and event ids,
-- the buffered reader, the deletion of directories, the contents of reports in the store,
-- ksjson_addJSONFromFile, the 32-bit architectures in Dwarf and Cursor, the cursor of the running
-- thread, symbols, the callback for added images and the set-up of the image cache,
-- kscrashstate_notifyObjCLoad and what an event gets of the application's state, and the C files
-- beside those that are named here.
pub mod Prelude
pub mod AppState
pub mod Store
pub mod Strings
pub mod Json
pub mod Monitor
pub mod File
pub mod Memory
pub mod Dwarf
pub mod Images
pub mod Compact
pub mod Cursor
