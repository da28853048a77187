-- ===== src/Json/Splice.antt =====
-- `ksjson_addJSONElement`: the decoder of JSON data, with callbacks that write to an encoder.
pub mod Forward
use kscrash.Prelude.{
  ℕ, zero, suc, Bool, true, false, ◌&&◌, ◌||◌, Option, none, some, Bytes, ltb, if◌then◌else◌,
}
use kscrash.Json.Codes.{ksjson_ok}
use kscrash.Json.Encode.Context.{EncodeContext, Sink}
use kscrash.Json.Encode.Number.{DoubleOps}
use kscrash.Json.Encode.Element.{
  add_boolean_element, add_floating_point_element, add_integer_element, add_uinteger_element,
  add_null_element, add_string_element, begin_array, begin_object, end_container,
}
use kscrash.Json.Decode.Callbacks.{Beyond, Callbacks}
use kscrash.Json.Decode.Element.{Outcome, more, stop, out_of_fuel, decode_element, enough_fuel}

-- The sizes of the buffers of `ksjson_addJSONElement`.
abbrev pub name_buffer_size : ℕ
name_buffer_size = 100

abbrev pub string_buffer_size : ℕ
string_buffer_size = 5000

module _ (ops : DoubleOps) {S : Type 0} (sink : Sink S) where
  -- `addJSONFromFile_onEndContainer`. Without `closeLastContainer` the end of a container is
  -- passed on only at the levels above 2.
  abbrev pub on_end_container : Bool → EncodeContext S → ℕ × EncodeContext S
  on_end_container close_last_container c =
      if close_last_container || ltb 2 (c.container_level)
      then end_container sink c
      else (ksjson_ok, c)

  -- The callbacks `addJSONFromFile_on...`, where `updateDecoderCallback` does nothing.
  abbrev pub forward : Bool → Callbacks ops.Double (EncodeContext S)
  forward close_last_container = record {
    on_boolean_element = λ name value. add_boolean_element sink name value;
    on_floating_point_element = λ name value. add_floating_point_element ops sink name value;
    on_integer_element = λ name value. add_integer_element sink name value;
    on_unsigned_integer_element = λ name value. add_uinteger_element sink name value;
    on_null_element = λ name. add_null_element sink name;
    on_string_element = λ name value. add_string_element sink name (some value);
    on_begin_object = λ name. begin_object sink name;
    on_begin_array = λ name. begin_array sink name;
    on_end_container = on_end_container close_last_container;
    on_end_data = λ c. (ksjson_ok, c);
  }

  -- The closing loop. Each round takes off a level, so the levels are its fuel.
  unfoldable pub close_down : ℕ → ℕ → EncodeContext S → EncodeContext S
  close_down zero container_level c = c
  close_down (suc fuel) container_level c =
      let rest = close_down fuel container_level (end_container sink c).1 in
      if ltb container_level (c.container_level) then rest else c

  abbrev pub close_all : Bool → ℕ → EncodeContext S → EncodeContext S
  close_all close_last_container container_level c =
      if close_last_container then close_down (c.container_level) container_level c else c

  abbrev pub spliced : Bool → ℕ → Outcome (EncodeContext S) → Option (ℕ × EncodeContext S)
  spliced close level (more rest c) = some (ksjson_ok, close_all close level c)
  spliced close level (stop r c) = some (r, close_all close level c)
  spliced close level out_of_fuel = none

  -- `ksjson_addJSONElement`. `none` stands for a lack of fuel.
  unfoldable pub add_json_element :
      Beyond → Option Bytes → Bytes → Bool → EncodeContext S → Option (ℕ × EncodeContext S)
  add_json_element beyond name json_data close_last_container c =
      spliced close_last_container (c.container_level) (
        decode_element ops beyond (forward close_last_container) name_buffer_size string_buffer_size
          (enough_fuel json_data) name json_data c)
