-- ===== src/Memory.antt =====
-- Sources/KSCrashRecordingCore/KSMemory.c. `copy_safely src n` is how many bytes the call
-- `copySafely(src, dst, n)` copies; what it puts into the buffer is not looked at.
pub mod Longest
pub mod Chunks
mod Tests
use kscrash.Prelude.{
  ℕ, zero, suc, ◌+◌, ◌-◌, ◌/◌, Bool, true, false, not, Option, none, some, ◌==◌, ltb, leb, min,
  if◌then◌else◌, uint64_max,
}

-- The size of `g_memoryTestBuffer`.
abbrev pub test_buffer_size : ℕ
test_buffer_size = 10240

module _ (copy_safely : ℕ → ℕ → ℕ) where
  -- The loop of `copyMaxPossible`, at `pSrc`, `pSrcMax`, `pSrcEnd` and `bytesCopied`. `none` stands
  -- for a lack of fuel.
  unfoldable pub copy_max_loop : ℕ → ℕ → ℕ → ℕ → ℕ → Option ℕ
  copy_max_loop zero position last end_ copied = none
  copy_max_loop (suc fuel) position last end_ copied =
      let len = end_ - position in
      let further = copy_max_loop fuel end_ last (end_ + (last - end_) / 2) (copied + len) in
      let shorter = copy_max_loop fuel position end_ (position + len / 2) copied in
      if ltb position end_
      then (if copy_safely position len == len
          then further
          else if leb len 1
          then some copied
          else shorter)
      else some copied

  -- `copyMaxPossible` of `byte_count` bytes, a count that is not negative.
  unfoldable pub copy_max_possible : ℕ → ℕ → Option ℕ
  copy_max_possible src byte_count =
      if not (copy_safely src 1 == 1)
      then some 0
      else if leb byte_count 1
      then some byte_count
      else if ltb (uint64_max - src) byte_count
      then some 0
      else copy_max_loop (suc (suc byte_count)) src (src + byte_count) (src + byte_count) 0

  -- The loop of `isMemoryReadable`, on `bytesRemaining`.
  unfoldable pub readable_loop : ℕ → ℕ → ℕ → ℕ
  readable_loop zero memory remaining = remaining
  readable_loop (suc fuel) memory remaining =
      let to_copy = if ltb test_buffer_size remaining then test_buffer_size else remaining in
      let rest = readable_loop fuel memory (remaining - to_copy) in
      if remaining == 0
      then 0
      else if copy_safely memory to_copy == to_copy
      then rest
      else remaining

  -- `isMemoryReadable`. Each round takes off at least a byte.
  unfoldable pub is_memory_readable : ℕ → ℕ → Bool
  is_memory_readable memory byte_count = readable_loop byte_count memory byte_count == 0

  -- The loop of `ksmem_maxReadableBytes`: where it stops, and what remains.
  unfoldable pub readable_chunks : ℕ → ℕ → ℕ → ℕ × ℕ
  readable_chunks zero position remaining = (position, remaining)
  readable_chunks (suc fuel) position remaining =
      let next =
        readable_chunks fuel (position + test_buffer_size) (remaining - test_buffer_size) in
      if ltb test_buffer_size remaining
      then (if is_memory_readable position test_buffer_size then next else (position, remaining))
      else (position, remaining)

  abbrev pub total_readable : ℕ → ℕ × ℕ → Option ℕ → Option ℕ
  total_readable try_byte_count (position, remaining) none = none
  total_readable try_byte_count (position, remaining) (some copied) =
      some (try_byte_count + copied - remaining)

  -- `ksmem_maxReadableBytes`: `tryByteCount - (bytesRemaining - copied)`. The last call asks for
  -- the whole buffer, not for what remains.
  unfoldable pub max_readable_bytes : ℕ → ℕ → Option ℕ
  max_readable_bytes memory try_byte_count =
      let stop = readable_chunks try_byte_count memory try_byte_count in
      total_readable try_byte_count stop (copy_max_possible (stop.0) test_buffer_size)
