-- ===== src/Strings/Hex/Tests.antt =====
-- "at 0x1aF," and a mark at the end of a string in front of a digit.
use kscrash.Prelude.{◌≡◌, refl, true, some, [], ◌∷◌, ◌++◌, codes, arith}
use kscrash.Strings.Hex.{hex_conversion, behind_mark, accumulate, search, extract_hex_value}
use kscrash.Strings.Hex.Extract.{digits, extract_hex_value-digits}

extract_hex_value_mixed : extract_hex_value 0 (codes "at 0x1aF,") ≡ some 431
unfolding extract_hex_value search behind_mark accumulate hex_conversion
extract_hex_value_mixed = refl

mark_at_end : extract_hex_value b'7' (codes "at 0x") ≡ some 0
unfolding extract_hex_value search behind_mark accumulate hex_conversion
mark_at_end = refl

extract_hex_value-digits_example :
    extract_hex_value 0
      (codes "at " ++ (b'0' ∷ b'x' ∷ (digits true (1 ∷ 10 ∷ 15 ∷ []) ++ codes ",")))
    ≡ some 431
unfolding hex_conversion
extract_hex_value-digits_example =
    extract_hex_value-digits 0 true (codes "at ") 1 (10 ∷ 15 ∷ []) (codes ",")
      (refl, refl, (refl, refl, refl)) (omega arith, (omega arith, (omega arith, tt))) (omega arith)
      refl
