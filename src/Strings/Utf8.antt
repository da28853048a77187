-- ===== src/Strings/Utf8.antt =====
-- `ksstring_isNullTerminatedUTF8String`. The memory is the bytes in front of `end`; nothing else is
-- read.
pub mod Text
pub mod Accepts
mod Tests
use kscrash.Prelude.{
  ℕ, zero, suc, ◌+◌, ◌/◌, ◌%◌, Bool, false, ◌||◌, ◌&&◌, not, Option, none, some, [], ◌∷◌, ◌++◌,
  List, Bytes, length, get_or, replicate, ◌==◌, ltb, leb, if◌then◌else◌,
}

-- `g_printableControlChars[ch]`.
abbrev pub is_printable_control : ℕ → Bool
is_printable_control ch = ch == 9 || ch == 10 || ch == 13

-- `g_continuationByteCount`.
abbrev pub continuation_byte_counts : List ℕ
continuation_byte_counts =
    replicate 32 1 ++ (replicate 16 2 ++ (replicate 8 3 ++ (replicate 4 4 ++ (5 ∷ 5 ∷ 0 ∷ 0 ∷ []))))

unfoldable pub continuation_byte_count : ℕ → ℕ
continuation_byte_count ch = get_or continuation_byte_counts (ch % 64) 0

-- The loop over the continuation bytes: what is behind them.
unfoldable pub skip_continuation : ℕ → Bytes → Option Bytes
skip_continuation zero bytes = some bytes
skip_continuation (suc n) [] = none
skip_continuation (suc n) (b ∷ bytes) =
    let rest = skip_continuation n bytes in if b / 64 == 2 then rest else none

module _ (min_length : ℕ) where
  -- Behind a character of some bytes, or at none.
  abbrev pub resume : (ℕ → Bytes → Bool) → ℕ → Option Bytes → Bool
  resume again position none = false
  resume again position (some bytes) = again position bytes

  -- The loop. Each round takes a byte at least, so the bytes are its fuel.
  unfoldable pub is_utf8 : ℕ → ℕ → Bytes → Bool
  is_utf8 zero position bytes = false
  is_utf8 (suc fuel) position [] = false
  is_utf8 (suc fuel) position (ch ∷ bytes) =
      let count = continuation_byte_count ch in
      let behind = resume (is_utf8 fuel) (position + suc count) (skip_continuation count bytes) in
      let next = is_utf8 fuel (suc position) bytes in
      if ch == 0
      then leb min_length position
      else if leb 128 ch
      then (if not (ch / 64 == 3)
          then false
          else if count == 0 || leb (suc (length bytes)) count
          then false
          else behind)
      else if ltb ch 32 && not (is_printable_control ch)
      then false
      else next

  unfoldable pub is_null_terminated_utf8_string : Bytes → Bool
  is_null_terminated_utf8_string memory = is_utf8 (length memory) 0 memory
