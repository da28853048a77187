-- ===== src/File/Writer.antt =====
-- `KSBufferedWriter` and its functions.
pub mod Stream
use kscrash.Prelude.{
  ℕ, zero, suc, ◌+◌, ◌-◌, ◌++◌, ◌&&◌, Bool, true, false, [], Option, none, some, Bytes, ltb,
  if◌then◌else◌, length,
}
use kscrash.File.Descriptor.{System, write_bytes_to_fd}

-- `buffer` has the first `position` bytes of the array, and the rest of it is never read. `fd` is
-- `none` where the source has -1. A descriptor of 0 is not taken for an open file either.
pub record BufferedWriter : Type 0 where
  pub buffer : Bytes
  pub buffer_length : ℕ
  pub fd : Option ℕ

-- `writer->fd > 0`.
abbrev pub open_fd : Option ℕ → Option ℕ
open_fd none = none
open_fd (some zero) = none
open_fd (some (suc fd)) = some (suc fd)

module _ {World : Type 0} (system : System World) where
  -- A call: whether it succeeds, the writer and the world after it. `none` stands for a lack of
  -- fuel in the writing loop.
  abbrev pub Result : Type 0
  Result = Option (Bool × BufferedWriter × World)

  -- `ksfu_openBufferedWriter`, at what `open` returned.
  abbrev pub open_buffered_writer : Option ℕ → ℕ → Bool × BufferedWriter
  open_buffered_writer none buffer_length =
      (false, record { buffer = []; buffer_length = buffer_length; fd = none })
  open_buffered_writer (some fd) buffer_length =
      (true, record { buffer = []; buffer_length = buffer_length; fd = some fd })

  abbrev pub emptied : BufferedWriter → Option (Bool × World) → Result
  emptied writer none = none
  emptied writer (some (false, w)) = some (false, writer, w)
  emptied writer (some (true, w)) = some (true, record writer { buffer = [] }, w)

  -- `ksfu_flushBufferedWriter`, at the descriptor if it is open.
  abbrev pub flush_to : Option ℕ → BufferedWriter → World → Result
  flush_to none writer w = some (true, writer, w)
  flush_to (some fd) writer w =
      if ltb 0 (length (writer.buffer))
      then emptied writer (write_bytes_to_fd system fd (writer.buffer) w)
      else some (true, writer, w)

  unfoldable pub flush_buffered_writer : BufferedWriter → World → Result
  flush_buffered_writer writer w = flush_to (open_fd (writer.fd)) writer w

  abbrev pub written : BufferedWriter → Option (Bool × World) → Result
  written writer none = none
  written writer (some (done, w)) = some (done, writer, w)

  -- The second half of `ksfu_writeBufferedWriter`, once there is room or the buffer is flushed.
  -- A direct write to the descriptor -1 fails.
  abbrev pub store : Bytes → Result → Result
  store bytes none = none
  store bytes (some (false, writer, w)) = some (false, writer, w)
  store bytes (some (true, writer, w)) =
      if ltb (writer.buffer_length) (length bytes)
      then elim (writer.fd) [
        | none ↦ some (false, writer, w)
        | some fd ↦ written writer (write_bytes_to_fd system fd bytes w)
      ]
      else some (true, record writer { buffer = writer.buffer ++ bytes }, w)

  -- `ksfu_writeBufferedWriter`.
  unfoldable pub write_buffered_writer : Bytes → BufferedWriter → World → Result
  write_buffered_writer bytes writer w = store bytes (
      if ltb (writer.buffer_length) (length bytes + length (writer.buffer))
      then flush_buffered_writer writer w
      else some (true, writer, w))

  abbrev pub closed : Result → Option (BufferedWriter × World)
  closed none = none
  closed (some (done, writer, w)) = some (record writer { fd = none }, w)

  -- `ksfu_closeBufferedWriter`; closing the descriptor itself leaves the file as it is.
  unfoldable pub close_buffered_writer : BufferedWriter → World → Option (BufferedWriter × World)
  close_buffered_writer writer w = elim (open_fd (writer.fd)) [
    | none ↦ some (writer, w)
    | some fd ↦ closed (flush_buffered_writer writer w)
  ]
