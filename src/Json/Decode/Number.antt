-- ===== src/Json/Decode/Number.antt =====
-- Decoding of numbers: the `case` of `decodeElement` for a sign or a digit.
use kscrash.Prelude.{
  ℕ, zero, suc, ◌+◌, ◌-◌, ◌*◌, ◌/◌, Bool, true, false, ◌&&◌, ◌||◌, not, [], ◌∷◌, ℤ, pos, negsuc,
  Bytes, uint64_max, int64_max, ◌==◌, ltb, leb, if◌then◌else◌, length, take,
}
use kscrash.Json.Codes.{
  ksjson_error_invalid_character, ksjson_error_data_too_long, ksjson_error_incomplete,
}
use kscrash.Json.Encode.Number.{DoubleOps}
use kscrash.Json.Decode.Callbacks.{Beyond}
use kscrash.Json.Decode.Text.{Decoded, ok, err}

abbrev pub is_digit : ℕ → Bool
is_digit c = leb b'0' c && leb c b'9'

-- `isFPChar`.
abbrev pub is_fp_char : ℕ → Bool
is_fp_char c = is_digit c || c == b'.' || c == b'e' || c == b'E' || c == b'+' || c == b'-'

-- What the loop over the digits leaves: `isOverflow`, `accum` and the input.
pub record Digits : Type 0 where
  pub is_overflow : Bool
  pub accum : ℕ
  pub rest : Bytes

-- The loop. It stops where ten times the accumulator, or the next digit, would not fit 64 bits.
unfoldable pub scan_digits : ℕ → Bytes → Digits
scan_digits accum [] = record { is_overflow = false; accum = accum; rest = [] }
scan_digits accum (c ∷ cs) =
    let digit = c - b'0' in
    let more = scan_digits (accum * 10 + digit) cs in
    if is_digit c
    then (if ltb (uint64_max / 10) accum
        then record { is_overflow = true; accum = accum; rest = c ∷ cs }
        else if ltb (uint64_max - digit) (accum * 10)
        then record { is_overflow = true; accum = accum * 10; rest = c ∷ cs }
        else more)
    else record { is_overflow = false; accum = accum; rest = c ∷ cs }

unfoldable pub skip_fp : Bytes → Bytes
skip_fp [] = []
skip_fp (c ∷ cs) = let more = skip_fp cs in if is_fp_char c then more else c ∷ cs

pub data Number (D : Type 0) : Type 0 where
  integer : ℤ → Number D
  unsigned : ℕ → Number D
  floating : D → Number D

-- `-(int64_t)accum`, and LLONG_MIN at LLONG_MAX + 1.
abbrev pub opposite : ℕ → ℤ
opposite zero = pos 0
opposite (suc n) = negsuc n

module _ (ops : DoubleOps) where
  -- The number as a `double`, from the text between `start` and where the digits of one end.
  unfoldable pub scan_double : Bool → ℕ → Bytes → Bytes → Decoded (Number ops.Double × Bytes)
  scan_double negative string_buffer_length start rest = elim (skip_fp rest) [
    | [] ↦ err ksjson_error_incomplete
    | c ∷ cs ↦
        let len = length start - length (c ∷ cs) in
        let value = ops.scan (take len start) in
        if leb string_buffer_length len
        then err ksjson_error_data_too_long
        else ok (floating (if negative then ops.negate value else value), c ∷ cs)
  ]

  -- Behind the loop over the digits.
  unfoldable pub finish_number : Bool → ℕ → Bytes → Digits → Decoded (Number ops.Double × Bytes)
  finish_number negative string_buffer_length start d = elim d.rest [
    | [] ↦ err ksjson_error_incomplete
    | c ∷ cs ↦
        if not (is_fp_char c) && not d.is_overflow
        then (if negative
            then (if leb d.accum (int64_max + 1)
                then ok (integer (opposite d.accum), d.rest)
                else scan_double negative string_buffer_length start d.rest)
            else if leb d.accum int64_max
            then ok (integer (pos d.accum), d.rest)
            else ok (unsigned d.accum, d.rest))
        else scan_double negative string_buffer_length start d.rest
  ]

  unfoldable pub decode_unsigned : Bool → ℕ → Bytes → Decoded (Number ops.Double × Bytes)
  decode_unsigned negative string_buffer_length start =
      finish_number negative string_buffer_length start (scan_digits 0 start)

  -- `case '-'`, behind the sign. With nothing behind it the byte past the end is tested.
  unfoldable pub decode_negative : Beyond → ℕ → Bytes → Decoded (Number ops.Double × Bytes)
  decode_negative beyond string_buffer_length [] =
      if is_digit beyond.past_end
      then decode_unsigned true string_buffer_length []
      else err ksjson_error_invalid_character
  decode_negative beyond string_buffer_length (c ∷ cs) =
      if is_digit c
      then decode_unsigned true string_buffer_length (c ∷ cs)
      else err ksjson_error_invalid_character
