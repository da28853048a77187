-- ===== src/File/Tests.antt =====
-- Runs of the writers over a system that takes at most three bytes at once.
use kscrash.Prelude.{ℕ, ◌≡◌, refl, [], ◌++◌, some, Bytes, codes, arith, length, take, min}
use kscrash.File.Descriptor.{System, wrote, received, write_bytes_to_fd}
use kscrash.File.Descriptor.Whole.{Posix, WritesAll, write_bytes_to_fd-WritesAll}
use kscrash.File.Path.{last_path_entry}
use kscrash.File.Path.Entry.{IsEntry, last_path_entry-IsEntry}
use kscrash.File.Writer.{BufferedWriter, write_buffered_writer}
use kscrash.File.Writer.Stream.{StreamIs, write_buffered_writer-StreamIs}

-- The world is the file.
abbrev slow : System Bytes
slow = record {
  write = λ fd bytes w. (wrote (min 3 (length bytes)), w ++ take (min 3 (length bytes)) bytes);
  read = λ fd n w. (received [], w);
}

abbrev file : Bytes → Bytes
file w = w

slow-Posix : (fd : ℕ) → Posix slow fd file
slow-Posix fd bytes w h = (omega (arith, h), omega arith, refl)

write_bytes_to_fd-WritesAll_example :
    WritesAll slow 4 file
      (codes "{\"report\":1}")
      (codes "old")
      (write_bytes_to_fd slow 4 (codes "{\"report\":1}") (codes "old"))
write_bytes_to_fd-WritesAll_example =
    write_bytes_to_fd-WritesAll slow 4 file (slow-Posix 4) (codes "{\"report\":1}") (codes "old")

abbrev writer : BufferedWriter
writer = record { buffer = codes "[1,"; buffer_length = 8; fd = some 4 }

write_buffered_writer-StreamIs_example :
    StreamIs slow 3 file 8
      ((codes "" ++ codes "[1,") ++ codes "234567]")
      (write_buffered_writer slow (codes "234567]") writer (codes ""))
write_buffered_writer-StreamIs_example =
    write_buffered_writer-StreamIs slow 3 file (slow-Posix 4) 8 (codes "234567]") writer (codes "")
      (refl, refl, omega arith)

last_path_entry-IsEntry_example :
    (entry : Bytes) × (last_path_entry (some (codes "/var/log/a.json")) ≡ some entry)
    × IsEntry (codes "/var/log/a.json") entry
last_path_entry-IsEntry_example = last_path_entry-IsEntry (codes "/var/log/a.json")
