-- ===== src/Json/Encode/Element.antt =====
-- The encoder's API, from `ksjson_beginElement` to `ksjson_endEncode`.
use kscrash.Prelude.{
  ℕ, zero, suc, ◌+◌, ◌-◌, ◌/◌, ◌%◌, Bool, true, false, ◌&&◌, not, [], ◌∷◌, Option, none, some, ℤ,
  Bytes, codes, ◌==◌, ltb, if◌then◌else◌,
}
use kscrash.Json.Codes.{ksjson_ok, ksjson_error_invalid_data}
use kscrash.Json.Encode.Context.{EncodeContext, set_is_object, Call, Sink, ◌>>◌, add_json_data}
use kscrash.Json.Encode.Text.{add_escaped_string, add_quoted_escaped_string}
use kscrash.Json.Encode.Number.{DoubleOps, format_double, format_int64, format_uint64}

abbrev succeed : {S : Type 0} → Call S
succeed c = (ksjson_ok, c)

abbrev pub when : {S : Type 0} → Bool → Call S → Call S
when b p c = if b then p c else (ksjson_ok, c)

-- `g_hexNybbles[n]`.
abbrev pub hex_nybble : ℕ → ℕ
hex_nybble n = if ltb n 10 then b'0' + n else b'A' + (n - 10)

-- `ksjson_beginEncode`. The context is cleared by `memset`.
abbrev pub begin_encode : {S : Type 0} → Bool → S → EncodeContext S
begin_encode pretty_print user_data = record {
  user_data = user_data;
  container_level = 0;
  is_object = λ _. false;
  container_first_entry = true;
  pretty_print = pretty_print;
}

abbrev pub open_mark : Bool → Bytes
open_mark object = if object then b'{' ∷ [] else b'[' ∷ []

abbrev pub close_mark : Bool → Bytes
close_mark object = if object then b'}' ∷ [] else b']' ∷ []

module _ {S : Type 0} (sink : Sink S) where
  -- `for (int i = 0; i < context->containerLevel; i++) { addJSONData(context, "    ", 4) }`
  unfoldable pub add_indent : ℕ → Call S
  add_indent zero = succeed
  add_indent (suc n) = add_json_data sink (codes "    ") >> add_indent n

  -- "Decide if a comma is warranted."
  unfoldable pub add_comma : Call S
  add_comma c =
      if c.container_first_entry
      then (ksjson_ok, record c { container_first_entry = false })
      else add_json_data sink (b',' ∷ []) c

  -- "Pretty printing", of an element and of the end of a container.
  unfoldable pub add_line : Call S
  add_line c = (add_json_data sink (b'\n' ∷ []) >> add_indent c.container_level) c

  -- "Add a name field if we're in an object."
  unfoldable pub add_name : Option Bytes → Call S
  add_name none c =
      if c.is_object c.container_level then (ksjson_error_invalid_data, c) else (ksjson_ok, c)
  add_name (some name) c =
      if c.is_object c.container_level
      then (add_quoted_escaped_string sink name
            >> add_json_data sink (if c.pretty_print then codes ": " else codes ":"))
          c
      else (ksjson_ok, c)

  unfoldable pub begin_element : Option Bytes → Call S
  begin_element name c =
      (add_comma >> when (c.pretty_print && ltb 0 c.container_level) add_line >> add_name name) c

  unfoldable pub add_raw_json_data : Bytes → Call S
  add_raw_json_data bytes = add_json_data sink bytes

  unfoldable pub add_formatted_number : Option Bytes → Bytes → Call S
  add_formatted_number name text = begin_element name >> add_json_data sink text

  unfoldable pub add_boolean_element : Option Bytes → Bool → Call S
  add_boolean_element name value =
      begin_element name >> add_json_data sink (if value then codes "true" else codes "false")

  unfoldable pub add_integer_element : Option Bytes → ℤ → Call S
  add_integer_element name value c =
      let (r, text) = format_int64 value in
      if r == ksjson_ok then add_formatted_number name text c else (r, c)

  unfoldable pub add_uinteger_element : Option Bytes → ℕ → Call S
  add_uinteger_element name value c =
      let (r, text) = format_uint64 value in
      if r == ksjson_ok then add_formatted_number name text c else (r, c)

  unfoldable pub add_null_element : Option Bytes → Call S
  add_null_element name = begin_element name >> add_json_data sink (codes "null")

  -- A NULL value is written as null. With KSJSON_SIZE_AUTOMATIC the length is that of the C string,
  -- and with a length given the value is that many bytes: here the value is those bytes.
  unfoldable pub add_string_element : Option Bytes → Option Bytes → Call S
  add_string_element name none = add_null_element name
  add_string_element name (some value) = begin_element name >> add_quoted_escaped_string sink value

  unfoldable pub begin_string_element : Option Bytes → Call S
  begin_string_element name = begin_element name >> add_json_data sink (b'"' ∷ [])

  unfoldable pub append_string_element : Bytes → Call S
  append_string_element value = add_escaped_string sink value

  unfoldable pub end_string_element : Call S
  end_string_element = add_json_data sink (b'"' ∷ [])

  unfoldable pub begin_data_element : Option Bytes → Call S
  begin_data_element name = begin_string_element name

  unfoldable pub append_data_element : Bytes → Call S
  append_data_element [] = succeed
  append_data_element (b ∷ bs) =
      add_json_data sink (hex_nybble (b / 16 % 16) ∷ hex_nybble (b % 16) ∷ [])
      >> append_data_element bs

  unfoldable pub end_data_element : Call S
  end_data_element = end_string_element

  unfoldable pub add_data_element : Option Bytes → Bytes → Call S
  add_data_element name value =
      begin_data_element name >> append_data_element value >> end_data_element

  -- What `ksjson_beginArray` and `ksjson_beginObject` do behind `ksjson_beginElement`.
  abbrev pub open_container : Bool → Call S
  open_container object c =
      let level : ℕ = suc c.container_level in
      add_json_data sink (open_mark object) (record c {
        container_level = level;
        is_object = set_is_object c.is_object level object;
        container_first_entry = true;
      })

  unfoldable pub begin_array : Option Bytes → Call S
  begin_array name = begin_element name >> open_container false

  unfoldable pub begin_object : Option Bytes → Call S
  begin_object name = begin_element name >> open_container true

  -- The end of a container at the level `suc level`.
  abbrev pub close_container : ℕ → Call S
  close_container level c =
      (when (c.pretty_print && not c.container_first_entry) add_line >> λ c'.
      add_json_data sink (close_mark (c.is_object (suc level)))
        (record c' { container_first_entry = false }))
        (record c { container_level = level })

  abbrev pub end_container_at : ℕ → Call S
  end_container_at zero c = (ksjson_ok, c)
  end_container_at (suc level) c = close_container level c

  unfoldable pub end_container : Call S
  end_container c = end_container_at c.container_level c

  -- The loop of `ksjson_endEncode`. Each round takes off a level, so the levels are its fuel.
  unfoldable pub end_containers : ℕ → Call S
  end_containers zero c = (ksjson_ok, c)
  end_containers (suc levels) c =
      let (r, c') = end_container c in
      elim (ltb 0 c.container_level && r == ksjson_ok) [
        | true ↦ end_containers levels c'
        | false ↦ if ltb 0 c.container_level then (r, c') else (ksjson_ok, c)
      ]

  unfoldable pub end_encode : Call S
  end_encode c = end_containers c.container_level c

module _ (ops : DoubleOps) {S : Type 0} (sink : Sink S) where
  unfoldable pub add_floating_point_element : Option Bytes → ops.Double → Call S
  add_floating_point_element name value c =
      let (r, text) = format_double ops value in
      if r == ksjson_ok then add_formatted_number sink name text c else (r, c)
