-- ===== src/Json/Tests.antt =====
-- Runs of the codec on small inputs.
use kscrash.Prelude.{
  ℕ, List, ◌≡◌, refl, true, false, [], ◌∷◌, ◌++◌, none, some, negsuc, Bytes, codes, ◌≤◌, ◌<◌, arith,
  length, take,
}
use kscrash.Json.Value.{
  Value, object, array, string, integer, unsigned, boolean, item, no_items, field, no_fields,
  IsWritable, Fits, print, events, add_value,
}
use kscrash.Json.Value.RoundTrip.{decode-encode}
use kscrash.Json.Splice.{add_json_element, close_all}
use kscrash.Json.Splice.Forward.{add_json_element-print}
use kscrash.Json.Value.Write.{add_value-print}
use kscrash.Json.Encode.Text.{
  add_escaped_string, escape_portion, escape_rest, escape_char, portion_size, add_escaped_portions,
  append_escaped_string, add_quoted_escaped_string, work_buffer_size,
}
use kscrash.Json.Encode.Escape.{
  gather, gathered, all_encodable, is_encodable, escaped, escaped_char, add_escaped_string-gather,
  length-escape_portion-le,
}
use kscrash.Json.Decode.Text.{
  decode_string, ok, find_quote, copy_body, unescape, unescape_step, simple_escape,
}
use kscrash.Json.Decode.Number.{decode_negative, decode_unsigned, finish_number, scan_digits}
use kscrash.Json.Decode.Ends.Element.{decode-returns}
use kscrash.Json.Decode.Unescape.{decode_string-escaped}
use kscrash.Json.Encode.Context.{Call, ◌>>◌}
use kscrash.Json.Encode.Number.{DoubleOps, format_int64, check_write_result, decimal_digits}
use kscrash.Json.Encode.Element.{
  begin_encode, begin_object, begin_array, add_integer_element, add_string_element,
  add_boolean_element, end_encode, begin_element, add_comma, add_name, add_line, add_indent,
  add_formatted_number, end_containers, end_container,
}
use kscrash.Json.Decode.Callbacks.{Beyond}
use kscrash.Json.Decode.Element.{
  decode, finish, decode_element, skip_whitespace, decode_at, decode_literal,
}
use kscrash.Json.Event.{
  Event, begin_object as on_object, begin_array as on_array, integer as on_integer,
  string as on_string, boolean as on_boolean, end_container as on_end, replay, recorder,
}

-- Texts in the place of the doubles.
abbrev texts : DoubleOps
texts = record {
  Double = Bytes;
  is_nan = λ _. false;
  is_inf = λ _. false;
  is_positive = λ _. true;
  near_float = λ _. true;
  print_float = λ t. t;
  print_double = λ t. t;
  print_fixed = λ t. t ++ codes ".0";
  scan = λ t. t;
  negate = λ t. b'-' ∷ t;
  of_integer = λ _. codes "0.0";
}

abbrev beyond : Beyond
beyond = record { past_end = 0; hex_table = λ _. 0 }

abbrev calls : Call Bytes
calls =
    begin_object gather none
    >> add_integer_element gather (some (codes "id")) (negsuc 6)
    >> begin_array gather (some (codes "list"))
    >> add_string_element gather none (some (codes "a\nb"))
    >> add_boolean_element gather none true
    >> end_encode gather

compact_text :
    (calls (begin_encode false [])).1.user_data ≡ codes "{\"id\":-7,\"list\":[\"a\\nb\",true]}"
unfolding begin_object add_integer_element begin_array add_string_element add_boolean_element
    end_encode begin_element add_comma add_name add_line add_indent format_int64 check_write_result
    decimal_digits add_formatted_number add_quoted_escaped_string add_escaped_string
    add_escaped_portions append_escaped_string escape_portion escape_rest escape_char end_containers
    end_container
compact_text = refl

pretty_text :
    (calls (begin_encode true [])).1.user_data
    ≡ codes "{\n    \"id\": -7,\n    \"list\": [\n        \"a\\nb\",\n        true\n    ]\n}"
unfolding begin_object add_integer_element begin_array add_string_element add_boolean_element
    end_encode begin_element add_comma add_name add_line add_indent format_int64 check_write_result
    decimal_digits add_formatted_number add_quoted_escaped_string add_escaped_string
    add_escaped_portions append_escaped_string escape_portion escape_rest escape_char end_containers
    end_container
pretty_text = refl

decode_text :
    decode texts beyond recorder (codes "{ \"id\":-7, \"l\":[\"a\\nb\" true,]}") 100 []
    ≡ some (
      0,
      on_object none
          ∷ on_integer (some (codes "id")) (negsuc 6)
          ∷ on_array (some (codes "l"))
          ∷ on_string none (codes "a\nb")
          ∷ on_boolean none true
          ∷ on_end
          ∷ on_end
          ∷ [],
    )
unfolding decode decode_element skip_whitespace decode_at decode_string find_quote copy_body
    decode_negative decode_unsigned finish_number scan_digits unescape unescape_step simple_escape
    decode_literal
decode_text = refl

-- {"a\nb": [-7, 2^63, true], "s": "x\"y"}
abbrev sample : Value
sample = object (
    field (codes "a\nb")
      (array (
        item (integer (negsuc 6))
          (item (unsigned 9_223_372_036_854_775_808) (item (boolean true) no_items))))
      (field (codes "s") (string (codes "x\"y")) no_fields))

sample-IsWritable : IsWritable 0 sample
unfolding IsWritable is_encodable
sample-IsWritable = (
  omega arith,
  (refl, (omega arith, (omega arith, ((omega arith, omega arith), (tt, tt)))), (refl, refl, tt)),
)

sample-Fits : Fits 25 75 sample
unfolding Fits escaped_char
sample-Fits = (omega arith, (tt, (tt, (tt, tt))), (omega arith, omega arith, tt))

sample-Fits_splice : Fits 100 5000 sample
unfolding Fits escaped_char
sample-Fits_splice = (omega arith, (tt, (tt, (tt, tt))), (omega arith, omega arith, tt))

decode-encode_example :
    decode texts beyond recorder
      (add_value gather none sample (begin_encode true [])).1.user_data
      100
      []
    ≡ finish texts beyond recorder (replay recorder (events none sample) [] [])
decode-encode_example =
    decode-encode texts beyond recorder sample true 100 [] tt sample-IsWritable sample-Fits

add_value-print_example :
    let (code, c) = add_value gather none sample (begin_encode false []) in
    (code ≡ 0) × (c.user_data ≡ print false 0 sample) × (c.container_level ≡ 0)
add_value-print_example = add_value-print sample false sample-IsWritable

tricky : Bytes
tricky = codes "tab\tquote\"back\\slash"

tricky-encodable : all_encodable tricky ≡ true
unfolding tricky is_encodable
tricky-encodable = refl

length-tricky : length (escaped tricky) < 40
unfolding tricky escaped_char
length-tricky = omega arith

decode_string-escaped_example :
    decode_string beyond 40 (b'"' ∷ (escaped tricky ++ b'"' ∷ codes ",1]"))
    ≡ ok (tricky, codes ",1]")
decode_string-escaped_example =
    decode_string-escaped beyond 40 tricky (codes ",1]") tricky-encodable length-tricky

add_escaped_string-gather_example :
    add_escaped_string gather tricky (begin_encode false (codes "["))
    ≡ (0, gathered (escaped tricky) (begin_encode false (codes "[")))
add_escaped_string-gather_example =
    add_escaped_string-gather tricky (begin_encode false (codes "[")) tricky-encodable

portion : escape_portion (take portion_size (codes "a\nb")) ≡ some (codes "a\\nb")
unfolding escape_portion escape_rest escape_char
portion = refl

length-escape_portion-le_example : length (codes "a\\nb") ≤ work_buffer_size
length-escape_portion-le_example = length-escape_portion-le (codes "a\nb") (codes "a\\nb") portion

add_json_element-print_example :
    add_json_element texts gather beyond
      (some (codes "inner"))
      (print true 0 sample)
      true
      (begin_encode false [])
    ≡ (let (r, c) = add_value gather (some (codes "inner")) sample (begin_encode false []) in
        some (r, close_all texts gather true 0 c))
add_json_element-print_example =
    add_json_element-print texts gather beyond sample true (some (codes "inner"))
      (begin_encode false []) tt sample-IsWritable sample-Fits_splice

decode-returns_example :
    (status : ℕ) × (kept : List (Event Bytes)) × (decode texts beyond recorder
        (codes "{\"a\":[tru")
        100
        []
      ≡ some (status, kept))
decode-returns_example = decode-returns texts beyond recorder (codes "{\"a\":[tru") 100 []
