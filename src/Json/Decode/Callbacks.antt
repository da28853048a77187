-- ===== src/Json/Decode/Callbacks.antt =====
-- `KSJSONDecodeCallbacks`, and what lies in memory beside the arrays that the decoder reads.
use kscrash.Prelude.{ℕ, Bool, Option, ℤ, Bytes}

-- What the C reads where it leaves an array: `past_end` is the byte behind the last one of the
-- input, and `hex_table c` the word that `g_hexConversion` yields for a `char` c of 128 or more,
-- whose sign is extended into the index. Nothing is assumed of either.
pub record Beyond : Type 0 where
  pub past_end : ℕ
  pub hex_table : ℕ → ℕ

-- `user_data` is threaded through: each callback gets it, and returns a status and its new value.
-- A name is NULL outside of an object.
pub record Callbacks (D S : Type 0) : Type 0 where
  pub on_boolean_element : Option Bytes → Bool → S → ℕ × S
  pub on_floating_point_element : Option Bytes → D → S → ℕ × S
  pub on_integer_element : Option Bytes → ℤ → S → ℕ × S
  pub on_unsigned_integer_element : Option Bytes → ℕ → S → ℕ × S
  pub on_null_element : Option Bytes → S → ℕ × S
  pub on_string_element : Option Bytes → Bytes → S → ℕ × S
  pub on_begin_object : Option Bytes → S → ℕ × S
  pub on_begin_array : Option Bytes → S → ℕ × S
  pub on_end_container : S → ℕ × S
  pub on_end_data : S → ℕ × S
