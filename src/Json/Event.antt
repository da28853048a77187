-- ===== src/Json/Event.antt =====
-- What the decoder reports, as data: the callbacks of a run in order, and callbacks that record it.
use kscrash.Prelude.{ℕ, Bool, List, [], ◌∷◌, ◌++◌, Option, ℤ, Bytes}
use kscrash.Json.Codes.{ksjson_ok}
use kscrash.Json.Decode.Callbacks.{Callbacks}
use kscrash.Json.Decode.Element.{Outcome, more, called, and_then}

pub data Event (D : Type 0) : Type 0 where
  boolean : Option Bytes → Bool → Event D
  floating : Option Bytes → D → Event D
  integer : Option Bytes → ℤ → Event D
  unsigned : Option Bytes → ℕ → Event D
  null : Option Bytes → Event D
  string : Option Bytes → Bytes → Event D
  begin_object : Option Bytes → Event D
  begin_array : Option Bytes → Event D
  end_container : Event D

module _ {D S : Type 0} (callbacks : Callbacks D S) where
  open callbacks use {
    on_boolean_element, on_floating_point_element, on_integer_element, on_unsigned_integer_element,
    on_null_element, on_string_element, on_begin_object, on_begin_array, on_end_container,
  }

  abbrev pub deliver : Event D → S → ℕ × S
  deliver (boolean name value) = on_boolean_element name value
  deliver (floating name value) = on_floating_point_element name value
  deliver (integer name value) = on_integer_element name value
  deliver (unsigned name value) = on_unsigned_integer_element name value
  deliver (null name) = on_null_element name
  deliver (string name value) = on_string_element name value
  deliver (begin_object name) = on_begin_object name
  deliver (begin_array name) = on_begin_array name
  deliver end_container = on_end_container

  -- The callbacks of `events`, up to the first that does not return KSJSON_OK. If there is none,
  -- the decoder stands in front of `rest`.
  unfoldable pub replay : List (Event D) → Bytes → S → Outcome S
  replay [] rest s = more rest s
  replay (e ∷ es) rest s = and_then (called (deliver e s) rest) (λ rest s. replay es rest s)

-- Callbacks that accept everything and keep a list of it.
abbrev pub recorder : {D : Type 0} → Callbacks D (List (Event D))
recorder = record {
  on_boolean_element = λ name value s. (ksjson_ok, s ++ boolean name value ∷ []);
  on_floating_point_element = λ name value s. (ksjson_ok, s ++ floating name value ∷ []);
  on_integer_element = λ name value s. (ksjson_ok, s ++ integer name value ∷ []);
  on_unsigned_integer_element = λ name value s. (ksjson_ok, s ++ unsigned name value ∷ []);
  on_null_element = λ name s. (ksjson_ok, s ++ null name ∷ []);
  on_string_element = λ name value s. (ksjson_ok, s ++ string name value ∷ []);
  on_begin_object = λ name s. (ksjson_ok, s ++ begin_object name ∷ []);
  on_begin_array = λ name s. (ksjson_ok, s ++ begin_array name ∷ []);
  on_end_container = λ s. (ksjson_ok, s ++ end_container ∷ []);
  on_end_data = λ s. (ksjson_ok, s);
}
