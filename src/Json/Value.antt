-- ===== src/Json/Value.antt =====
-- JSON documents as trees, the text that stands for them, and the calls that write them.
pub mod Front
pub mod Write
pub mod Layout
pub mod Read
pub mod RoundTrip
use kscrash.Prelude.{
  ℕ, zero, suc, ◌+◌, ◌≤◌, ◌<◌, ◌≡◌, Bool, true, false, ◌&&◌, List, [], ◌∷◌, ◌++◌, Option, none,
  some, ℤ, pos, negsuc, Bytes, codes, uint64_max, int64_max, ltb, if◌then◌else◌, length,
}
use kscrash.Json.Encode.Context.{Call, Sink, ◌>>◌, max_depth}
use kscrash.Json.Encode.Number.{decimal, signed_decimal, IsInt64}
use kscrash.Json.Encode.Escape.{all_encodable, escaped}
use kscrash.Json.Encode.Element.{
  add_boolean_element, add_integer_element, add_uinteger_element, add_null_element,
  add_string_element, begin_array, begin_object, end_container,
}
use kscrash.Json.Event.{
  Event, boolean as on_boolean, integer as on_integer, unsigned as on_unsigned, null as on_null,
  string as on_string, begin_object as on_begin_object, begin_array as on_begin_array,
  end_container as on_end_container,
}

-- `unsigned` is for what exceeds LLONG_MAX.
mutual
  pub data Value : Type 0 where
    null : Value
    boolean : Bool → Value
    integer : ℤ → Value
    unsigned : ℕ → Value
    string : Bytes → Value
    array : Items → Value
    object : Fields → Value

  pub data Items : Type 0 where
    no_items : Items
    item : Value → Items → Items

  pub data Fields : Type 0 where
    no_fields : Fields
    field : Bytes → Value → Fields → Fields

abbrev pub quoted : Bytes → Bytes
quoted s = b'"' ∷ (escaped s ++ (b'"' ∷ []))

abbrev pub indent : ℕ → Bytes
indent zero = []
indent (suc n) = codes "    " ++ indent n

abbrev pub comma : Bool → Bytes
comma first = if first then [] else b',' ∷ []

module _ (pretty : Bool) where
  abbrev pub line : ℕ → Bytes
  line level = if pretty then b'\n' ∷ indent level else []

  abbrev pub colon : Bytes
  colon = if pretty then codes ": " else codes ":"

  -- The text of a value that stands at `level`; the parts of a container stand one level deeper.
  unfoldable mutual
    pub print : ℕ → Value → Bytes
    print level null = codes "null"
    print level (boolean b) = if b then codes "true" else codes "false"
    print level (integer n) = signed_decimal n
    print level (unsigned n) = decimal n
    print level (string s) = quoted s
    print level (array xs) = b'[' ∷ print_items level true xs
    print level (object fs) = b'{' ∷ print_fields level true fs

    -- The items from some place on, and the closing bracket.
    pub print_items : ℕ → Bool → Items → Bytes
    print_items level first no_items = (if first then [] else line level) ++ (b']' ∷ [])
    print_items level first (item v xs) =
        comma first ++ (line (suc level) ++ (print (suc level) v ++ print_items level false xs))

    pub print_fields : ℕ → Bool → Fields → Bytes
    print_fields level first no_fields = (if first then [] else line level) ++ (b'}' ∷ [])
    print_fields level first (field name v fs) =
        comma first
        ++ (line (suc level)
            ++ (quoted name ++ (colon ++ (print (suc level) v ++ print_fields level false fs))))

-- What the decoder reports of a value.
unfoldable mutual
  pub events : {D : Type 0} → Option Bytes → Value → List (Event D)
  events name null = on_null name ∷ []
  events name (boolean b) = on_boolean name b ∷ []
  events name (integer n) = on_integer name n ∷ []
  events name (unsigned n) = on_unsigned name n ∷ []
  events name (string s) = on_string name s ∷ []
  events name (array xs) = on_begin_array name ∷ item_events xs
  events name (object fs) = on_begin_object name ∷ field_events fs

  pub item_events : {D : Type 0} → Items → List (Event D)
  item_events no_items = on_end_container ∷ []
  item_events (item v xs) = events none v ++ item_events xs

  pub field_events : {D : Type 0} → Fields → List (Event D)
  field_events no_fields = on_end_container ∷ []
  field_events (field name v fs) = events (some name) v ++ field_events fs

-- The calls of the encoder that write a value.
module _ {S : Type 0} (sink : Sink S) where
  unfoldable mutual
    pub add_value : Option Bytes → Value → Call S
    add_value name null = add_null_element sink name
    add_value name (boolean b) = add_boolean_element sink name b
    add_value name (integer n) = add_integer_element sink name n
    add_value name (unsigned n) = add_uinteger_element sink name n
    add_value name (string s) = add_string_element sink name (some s)
    add_value name (array xs) = begin_array sink name >> add_items xs
    add_value name (object fs) = begin_object sink name >> add_fields fs

    pub add_items : Items → Call S
    add_items no_items = end_container sink
    add_items (item v xs) = add_value none v >> add_items xs

    pub add_fields : Fields → Call S
    add_fields no_fields = end_container sink
    add_fields (field name v fs) = add_value (some name) v >> add_fields fs

-- What the encoder can write at `level`: 64-bit numbers, strings with no bad control characters,
-- and no more than the levels that the array `isObject` has room for.
unfoldable mutual
  pub IsWritable : ℕ → Value → Type 0
  IsWritable level null = Unit
  IsWritable level (boolean b) = Unit
  IsWritable level (integer n) = IsInt64 n
  IsWritable level (unsigned n) = (int64_max < n) × (n ≤ uint64_max)
  IsWritable level (string s) = all_encodable s ≡ true
  IsWritable level (array xs) = (suc level < max_depth) × AreWritable level xs
  IsWritable level (object fs) = (suc level < max_depth) × HasWritable level fs

  pub AreWritable : ℕ → Items → Type 0
  AreWritable level no_items = Unit
  AreWritable level (item v xs) = IsWritable (suc level) v × AreWritable level xs

  pub HasWritable : ℕ → Fields → Type 0
  HasWritable level no_fields = Unit
  HasWritable level (field name v fs) =
      (all_encodable name ≡ true) × IsWritable (suc level) v × HasWritable level fs

-- The strings and names that fit the decoder's two buffers, with their terminating NUL.
module _ (name_buffer_length string_buffer_length : ℕ) where
  unfoldable mutual
    pub Fits : Value → Type 0
    Fits null = Unit
    Fits (boolean b) = Unit
    Fits (integer n) = Unit
    Fits (unsigned n) = Unit
    Fits (string s) = length (escaped s) < string_buffer_length
    Fits (array xs) = AllFit xs
    Fits (object fs) = FieldsFit fs

    pub AllFit : Items → Type 0
    AllFit no_items = Unit
    AllFit (item v xs) = Fits v × AllFit xs

    pub FieldsFit : Fields → Type 0
    FieldsFit no_fields = Unit
    FieldsFit (field name v fs) =
        (length (escaped name) < name_buffer_length) × Fits v × FieldsFit fs
