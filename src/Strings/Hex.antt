-- ===== src/Strings/Hex.antt =====
-- `ksstring_extractHexValue`.
pub mod Extract
mod Tests
use kscrash.Prelude.{
  ℕ, zero, suc, ◌+◌, ◌-◌, ◌*◌, ◌%◌, Bool, ◌&&◌, Option, none, some, [], ◌∷◌, Bytes, length, ◌==◌,
  ltb, leb, if◌then◌else◌,
}
use kscrash.Dwarf.Reader.{wrap}

-- `INV`.
abbrev pub invalid : ℕ
invalid = 255

-- `g_hexConversion[c]`.
unfoldable pub hex_conversion : ℕ → ℕ
hex_conversion c =
    if leb b'0' c && leb c b'9'
    then c - b'0'
    else if leb b'A' c && leb c b'F'
    then c - b'A' + 10
    else if leb b'a' c && leb c b'f'
    then c - b'a' + 10
    else invalid

-- `strnstr(current, "0x", ...) + 2`: it stops at a NUL.
unfoldable pub behind_mark : Bytes → Option Bytes
behind_mark [] = none
behind_mark (c ∷ []) = none
behind_mark (c ∷ d ∷ bytes) =
    let later = behind_mark (d ∷ bytes) in
    if c == 0 then none else if c == b'0' && d == b'x' then some bytes else later

-- The loop over the digits, whose value keeps 64 bits.
unfoldable pub accumulate : ℕ → Bytes → ℕ
accumulate accum [] = accum
accumulate accum (c ∷ bytes) =
    let nybble = hex_conversion c in
    let more = accumulate (wrap (wrap (accum * 16) + nybble)) bytes in
    if nybble == invalid then accum else more

-- Behind the mark: `past_end` is the byte behind the string, which is read where the string ends
-- with the mark.
module _ (past_end : ℕ) where
  abbrev pub first_byte : Bytes → ℕ
  first_byte [] = past_end
  first_byte (c ∷ bytes) = c

  abbrev pub on_mark : (Bytes → Option ℕ) → Option Bytes → Option ℕ
  on_mark again none = none
  on_mark again (some bytes) =
      if hex_conversion (first_byte bytes) == invalid
      then again bytes
      else some (accumulate 0 bytes)

  -- The outer loop. Each round passes two bytes at least, so the bytes are its fuel.
  unfoldable pub search : ℕ → Bytes → Option ℕ
  search zero bytes = none
  search (suc fuel) bytes = on_mark (search fuel) (behind_mark bytes)

  unfoldable pub extract_hex_value : Bytes → Option ℕ
  extract_hex_value string = search (length string) string
