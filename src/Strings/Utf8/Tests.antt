-- ===== src/Strings/Utf8/Tests.antt =====
-- "Aé" in UTF-8, and a string that ends within a character.
use kscrash.Prelude.{◌≡◌, ◌↔◌, refl, true, false, [], ◌∷◌, Bytes}
use kscrash.Strings.Utf8.{
  continuation_byte_count, skip_continuation, is_utf8, is_null_terminated_utf8_string,
}
use kscrash.Strings.Utf8.Text.{IsText}
use kscrash.Strings.Utf8.Accepts.{is_null_terminated_utf8_string-IsText}

abbrev two_characters : Bytes
two_characters = 65 ∷ 195 ∷ 169 ∷ 0 ∷ 7 ∷ []

two_characters-accepted : is_null_terminated_utf8_string 3 two_characters ≡ true
unfolding is_null_terminated_utf8_string is_utf8 continuation_byte_count skip_continuation
two_characters-accepted = refl

cut-refused : is_null_terminated_utf8_string 0 (65 ∷ 195 ∷ []) ≡ false
unfolding is_null_terminated_utf8_string is_utf8 continuation_byte_count skip_continuation
cut-refused = refl

is_null_terminated_utf8_string-IsText_example :
    (is_null_terminated_utf8_string 3 two_characters ≡ true) ↔ IsText 3 two_characters
is_null_terminated_utf8_string-IsText_example =
    is_null_terminated_utf8_string-IsText 3 two_characters
