-- ===== src/Json/Decode/Element.antt =====
-- `decodeElement` and `ksjson_decode`. One function for each `case`, and the loops of `[` and `{`.
use kscrash.Prelude.{
  ℕ, zero, suc, ◌+◌, ◌-◌, ◌*◌, ◌/◌, Bool, true, false, ◌&&◌, ◌||◌, [], ◌∷◌, Option, none, some,
  Bytes, codes, c_string, ◌==◌, ltb, leb, if◌then◌else◌, length, drop,
}
use kscrash.Json.Codes.{ksjson_ok, ksjson_error_invalid_character, ksjson_error_incomplete}
use kscrash.Json.Encode.Number.{DoubleOps}
use kscrash.Json.Decode.Callbacks.{Beyond, Callbacks}
use kscrash.Json.Decode.Text.{Decoded, ok, err, decode_string}
use kscrash.Json.Decode.Number.{
  Number, integer, unsigned, floating, is_digit, decode_unsigned, decode_negative,
}

-- A call that returned KSJSON_OK, with the input that is left; one that returned an error; and
-- one that the model cut off, which has no counterpart in the program. Each has the user's data.
pub data Outcome (S : Type 0) : Type 0 where
  more : Bytes → S → Outcome S
  stop : ℕ → S → Outcome S
  out_of_fuel : Outcome S

abbrev pub and_then : {S : Type 0} → Outcome S → (Bytes → S → Outcome S) → Outcome S
and_then (more rest s) k = k rest s
and_then (stop r s) k = stop r s
and_then out_of_fuel k = out_of_fuel

-- `result = callback(...); if (result != KSJSON_OK) return result;`
abbrev pub called : {S : Type 0} → ℕ × S → Bytes → Outcome S
called (r, s) rest = if r == ksjson_ok then more rest s else stop r s

abbrev pub decoded {ℓ} : {A : Type ℓ} {S : Type 0} → Decoded A → S → (A → Outcome S) → Outcome S
decoded (ok a) s k = k a
decoded (err e) s k = stop e s

-- `isspace` in the C locale.
abbrev pub is_space : ℕ → Bool
is_space c = c == b' ' || leb 9 c && leb c 13

-- SKIP_WHITESPACE.
unfoldable pub skip_whitespace : Bytes → Bytes
skip_whitespace [] = []
skip_whitespace (c ∷ cs) = let more = skip_whitespace cs in if is_space c then more else c ∷ cs

abbrev pub skip_comma : Bytes → Bytes
skip_comma [] = []
skip_comma (c ∷ cs) = if c == b',' then cs else c ∷ cs

abbrev pub starts_with : Bytes → Bytes → Bool
starts_with [] cs = true
starts_with (x ∷ xs) [] = false
starts_with (x ∷ xs) (c ∷ cs) = c == x && starts_with xs cs

-- The calls nest at most twice for each byte of the input.
abbrev pub enough_fuel : Bytes → ℕ
enough_fuel input = 2 * length input + 2

-- What `ksjson_decode` stores in `*errorOffset`: `ptr` stays at the start of the input.
abbrev pub error_offset : ℕ → Option ℕ
error_offset result = if result == ksjson_ok then none else some 0

module _ (ops : DoubleOps) (beyond : Beyond) {S : Type 0} (callbacks : Callbacks ops.Double S) where
  open callbacks use {
    on_boolean_element, on_floating_point_element, on_integer_element, on_unsigned_integer_element,
    on_null_element, on_string_element, on_begin_object, on_begin_array, on_end_container,
    on_end_data,
  }

  -- "true", "false" and "null", on what follows the first letter.
  unfoldable pub decode_literal : Bytes → Bytes → (S → ℕ × S) → S → Outcome S
  decode_literal letters cs callback s =
      if ltb (length cs) (length letters)
      then stop ksjson_error_incomplete s
      else if starts_with letters cs
      then called (callback s) (drop (length letters) cs)
      else stop ksjson_error_invalid_character s

  abbrev pub on_number : Option Bytes → Number ops.Double → S → ℕ × S
  on_number name (integer value) = on_integer_element name value
  on_number name (unsigned value) = on_unsigned_integer_element name value
  on_number name (floating value) = on_floating_point_element name value

  -- The lengths of the two buffers.
  module _ (name_buffer_length string_buffer_length : ℕ) where
    -- The `switch`, on the first byte that is no space. `array` and `object` are the loops.
    unfoldable pub decode_at :
        (Bytes → S → Outcome S) → (Bytes → S → Outcome S) → Option Bytes → ℕ → Bytes → S → Outcome S
    decode_at array object name c cs s =
        if c == b'['
        then and_then (called (on_begin_array name s) cs) array
        else if c == b'{'
        then and_then (called (on_begin_object name s) cs) object
        else if c == b'"'
        then (decoded (decode_string beyond string_buffer_length (c ∷ cs)) s
            λ (bytes, rest). called (on_string_element name (c_string bytes) s) rest)
        else if c == b'f'
        then decode_literal (codes "alse") cs (on_boolean_element name false) s
        else if c == b't'
        then decode_literal (codes "rue") cs (on_boolean_element name true) s
        else if c == b'n'
        then decode_literal (codes "ull") cs (on_null_element name) s
        else if c == b'-'
        then (decoded (decode_negative ops beyond string_buffer_length cs) s
            λ (n, rest). called (on_number name n s) rest)
        else if is_digit c
        then (decoded (decode_unsigned ops false string_buffer_length (c ∷ cs)) s
            λ (n, rest). called (on_number name n s) rest)
        else stop ksjson_error_invalid_character s

    abbrev pub decode_front :
        (Bytes → S → Outcome S) → (Bytes → S → Outcome S) → Option Bytes → Bytes → S → Outcome S
    decode_front array object name [] s = stop ksjson_error_incomplete s
    decode_front array object name (c ∷ cs) s = decode_at array object name c cs s

    -- A round of the loop of `[`, from where the whitespace has been skipped.
    abbrev pub array_round :
        (Option Bytes → Bytes → S → Outcome S) → (Bytes → S → Outcome S) → Bytes → S → Outcome S
    array_round element again [] s = stop ksjson_error_incomplete s
    array_round element again (c ∷ cs) s =
        if c == b']'
        then called (on_end_container s) cs
        else and_then (element none (c ∷ cs) s)
            λ rest s'. again (skip_comma (skip_whitespace rest)) s'

    -- What follows a name: the colon and the element.
    abbrev pub object_value :
        (Option Bytes → Bytes → S → Outcome S)
        → (Bytes → S → Outcome S)
        → Bytes
        → Bytes
        → S
        → Outcome S
    object_value element again name [] s = stop ksjson_error_incomplete s
    object_value element again name (c ∷ cs) s =
        if c == b':'
        then (and_then (element (some name) (skip_whitespace cs) s)
            λ rest s'. again (skip_comma (skip_whitespace rest)) s')
        else stop ksjson_error_invalid_character s

    -- A round of the loop of `{`.
    abbrev pub object_round :
        (Option Bytes → Bytes → S → Outcome S) → (Bytes → S → Outcome S) → Bytes → S → Outcome S
    object_round element again [] s = stop ksjson_error_incomplete s
    object_round element again (c ∷ cs) s =
        if c == b'}'
        then called (on_end_container s) cs
        else decoded (decode_string beyond name_buffer_length (c ∷ cs)) s
            λ (name, rest). object_value element again (c_string name) (skip_whitespace rest) s

    -- The calls of one another, on fuel. The loops call a round only with input left.
    unfoldable mutual
      pub decode_element : ℕ → Option Bytes → Bytes → S → Outcome S
      decode_element zero name rest s = out_of_fuel
      decode_element (suc fuel) name rest s =
          decode_front (array_loop fuel) (object_loop fuel) name (skip_whitespace rest) s

      pub array_loop : ℕ → Bytes → S → Outcome S
      array_loop zero rest s = out_of_fuel
      array_loop (suc fuel) rest s =
          array_round (decode_element fuel) (array_loop fuel) (skip_whitespace rest) s

      pub object_loop : ℕ → Bytes → S → Outcome S
      object_loop zero rest s = out_of_fuel
      object_loop (suc fuel) rest s =
          object_round (decode_element fuel) (object_loop fuel) (skip_whitespace rest) s

  -- `onEndData` runs only behind a decoded element.
  abbrev pub finish : Outcome S → Option (ℕ × S)
  finish (more rest s) = some (on_end_data s)
  finish (stop r s) = some (r, s)
  finish out_of_fuel = none

  -- `ksjson_decode`: a quarter of the buffer is for names. `none` stands for a lack of fuel.
  unfoldable pub decode : Bytes → ℕ → S → Option (ℕ × S)
  decode input string_buffer_length s =
      let name_buffer_length = string_buffer_length / 4 in
      finish (
        decode_element name_buffer_length (string_buffer_length - name_buffer_length)
          (enough_fuel input) none input s)
