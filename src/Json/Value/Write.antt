-- ===== src/Json/Value/Write.antt =====
-- The encoder's calls write the text of a value.
use kscrash.Prelude.{
  ℕ, suc, ◌≤◌, ◌<◌, ◌≡◌, refl, ap, ◌∙◌, subst, Bool, true, false, [], ◌++◌, append-nil,
  append_assoc, Option, none, some, ℤ, Bytes, uint64_max, codes, arith, lt→ltb, if◌then◌else◌,
  ==_refl,
}
use kscrash.Json.Codes.{ksjson_ok}
use kscrash.Json.Encode.Context.{
  EncodeContext, Call, set_is_object, ◌>>◌, chain, add_json_data, max_depth,
}
use kscrash.Json.Encode.Text.{add_quoted_escaped_string}
use kscrash.Json.Encode.Number.{IsInt64, decimal, signed_decimal}
use kscrash.Json.Encode.Decimal.{format_int64_lem, format_uint64_lem}
use kscrash.Json.Encode.Escape.{all_encodable, gather, add_quoted_escaped_string-gather}
use kscrash.Json.Encode.Element.{
  begin_encode, add_line, begin_element, add_formatted_number, add_boolean_element,
  add_integer_element, add_uinteger_element, add_null_element, add_string_element, open_container,
  open_mark, close_mark, begin_array, begin_object, end_container,
}
use kscrash.Json.Value.{
  Value, Items, Fields, null, boolean, integer, unsigned, string, array, object, no_items, item,
  no_fields, field, quoted, comma, line, colon, print, print_items, print_fields, add_value,
  add_items, add_fields, IsWritable, AreWritable, HasWritable,
}
use kscrash.Json.Value.Front.{
  context, IsNamed, front, Writes, Writes-chain, add_line-gather, begin_element-Writes,
}

set_is_object_self : (o : ℕ → Bool) (i : ℕ) (b : Bool) → i < max_depth → set_is_object o i b i ≡ b
set_is_object_self o i b h = rw (lt→ltb i max_depth h, ==_refl i)

set_is_object_below :
    (o : ℕ → Bool) (level j : ℕ) (b : Bool) → j ≤ level → set_is_object o (suc level) b j ≡ o j
set_is_object_below o level j b h = ground arith

close-Writes :
    (level : ℕ) (o : ℕ → Bool) (braces first pretty : Bool)
    → o (suc level) ≡ braces
    → Writes
        (end_container gather)
        ((if first then [] else line pretty level) ++ close_mark braces)
        (suc level)
        level
        o
        first
        pretty
unfolding end_container
close-Writes level o braces true true h out = (o, rw h, λ j k. refl)
close-Writes level o braces true false h out = (o, rw h, λ j k. refl)
close-Writes level o braces false false h out = (o, rw h, λ j k. refl)
close-Writes level o braces false true h out = (
  o,
  chain (add_line gather)
      (λ c.
        add_json_data gather (close_mark (o (suc level)))
          (record c { container_first_entry = false }))
      (context out level o false true) (add_line-gather (context out level o false true))
      (rw h (
        ap (λ (t : Bytes). (ksjson_ok, context t level o false true))
          (append_assoc out (line true level) (close_mark braces)))),
  λ j k. refl,
)

module _ (name : Option Bytes) (level : ℕ) (is_object : ℕ → Bool) (first pretty : Bool)
    (named : IsNamed (is_object level) name) where
  abbrev lead : Bytes
  lead = front pretty first level (is_object level) name

  -- An element whose text is handed over at once.
  pub element-Writes :
      (p : Call Bytes) (text : Bytes)
      → ((out : Bytes) (o : ℕ → Bool)
          → p (context out level o false pretty)
            ≡ (ksjson_ok, context (out ++ text) level o false pretty))
      → Writes (begin_element gather name >> p) (lead ++ text) level level is_object first pretty
  element-Writes p text h =
      Writes-chain (begin_element gather name) p lead text level level is_object first pretty
        (omega arith) (begin_element-Writes name level is_object first pretty named)
        (λ o same out. (o, h out o, λ j k. refl))

  pub add_integer_element-Writes :
      (n : ℤ)
      → IsInt64 n
      → Writes
          (add_integer_element gather name n)
          (lead ++ signed_decimal n)
          level
          level
          is_object
          first
          pretty
  unfolding add_integer_element add_formatted_number
  add_integer_element-Writes n h out = rw (format_int64_lem n h) (
      element-Writes (add_json_data gather (signed_decimal n)) (signed_decimal n) (λ out o. refl)
        out)

  add_uinteger_element-Writes :
      (n : ℕ)
      → n ≤ uint64_max
      → Writes
          (add_uinteger_element gather name n)
          (lead ++ decimal n)
          level
          level
          is_object
          first
          pretty
  unfolding add_uinteger_element add_formatted_number
  add_uinteger_element-Writes n h out =
      rw (format_uint64_lem n h)
        (element-Writes (add_json_data gather (decimal n)) (decimal n) (λ out o. refl) out)

  add_string_element-Writes :
      (s : Bytes)
      → all_encodable s ≡ true
      → Writes
          (add_string_element gather name (some s))
          (lead ++ quoted s)
          level
          level
          is_object
          first
          pretty
  unfolding add_string_element
  add_string_element-Writes s h =
      element-Writes (add_quoted_escaped_string gather s) (quoted s)
        (λ out o. add_quoted_escaped_string-gather s (context out level o false pretty) h)

  -- A container whose parts and end are written by `parts`, one level deeper.
  container-Writes :
      (braces : Bool) (parts : Call Bytes) (text : Bytes)
      → suc level < max_depth
      → ((o : ℕ → Bool)
          → o (suc level) ≡ braces
          → Writes parts text (suc level) level o true pretty)
      → Writes
          (begin_element gather name >> open_container gather braces >> parts)
          (lead ++ (open_mark braces ++ text))
          level
          level
          is_object
          first
          pretty
  container-Writes braces parts text deep h out =
      let (o, began, same) = begin_element-Writes name level is_object first pretty named out in
      let mark = open_mark braces in
      let o₁ = set_is_object o (suc level) braces in
      let (o₂, ran, same₂) =
        h o₁ (set_is_object_self o (suc level) braces deep) ((out ++ lead) ++ mark) in
      (
        o₂,
        chain (begin_element gather name >> open_container gather braces) parts
              (context out level is_object first pretty)
              (chain (begin_element gather name) (open_container gather braces)
                (context out level is_object first pretty) began refl)
              ran
            ∙ ap (λ (t : Bytes). (ksjson_ok, context t level o₂ false pretty)) (simp append_assoc),
        λ j k. same₂ j k ∙ set_is_object_below o level j braces k ∙ same j k,
      )

item_text : (c l t r : Bytes) → (((c ++ l) ++ []) ++ t) ++ r ≡ c ++ (l ++ (t ++ r))
item_text c l t r = simp (append-nil, append_assoc)

field_text :
    (c l name k t r : Bytes) (b : Bool)
    → b ≡ true
    → (((c ++ l) ++ (if b then quoted name ++ k else [])) ++ t) ++ r
      ≡ c ++ (l ++ (quoted name ++ (k ++ (t ++ r))))
field_text c l name k t r b e = rw e (simp append_assoc)

mutual
  unfolding print add_value IsWritable begin_array begin_object add_null_element add_boolean_element

  value-Writes :
      (v : Value) (name : Option Bytes) (level : ℕ) (is_object : ℕ → Bool) (first pretty : Bool)
      → IsNamed (is_object level) name
      → IsWritable level v
      → Writes
          (add_value gather name v)
          (front pretty first level (is_object level) name ++ print pretty level v)
          level
          level
          is_object
          first
          pretty
  value-Writes null name level o first pretty n h =
      element-Writes name level o first pretty n (add_json_data gather (codes "null"))
        (codes "null") (λ out o. refl)
  value-Writes (boolean b) name level o first pretty n h =
      let text : Bytes = if b then codes "true" else codes "false" in
      element-Writes name level o first pretty n (add_json_data gather text) text (λ out o. refl)
  value-Writes (integer i) name level o first pretty n h =
      add_integer_element-Writes name level o first pretty n i h
  value-Writes (unsigned i) name level o first pretty n h =
      add_uinteger_element-Writes name level o first pretty n i h.1
  value-Writes (string s) name level o first pretty n h =
      add_string_element-Writes name level o first pretty n s h
  value-Writes (array xs) name level o first pretty n h =
      container-Writes name level o first pretty n false (add_items gather xs)
        (print_items pretty level true xs) h.0 (λ o₁ e. items-Writes xs level o₁ true pretty e h.1)
  value-Writes (object fs) name level o first pretty n h =
      container-Writes name level o first pretty n true (add_fields gather fs)
        (print_fields pretty level true fs) h.0
        (λ o₁ e. fields-Writes fs level o₁ true pretty e h.1)

  items-Writes :
      (xs : Items) (level : ℕ) (o : ℕ → Bool) (first pretty : Bool)
      → o (suc level) ≡ false
      → AreWritable level xs
      → Writes
          (add_items gather xs)
          (print_items pretty level first xs)
          (suc level)
          level
          o
          first
          pretty
  items-Writes no_items level o first pretty e h = close-Writes level o false first pretty e
  items-Writes (item v xs) level o first pretty e h =
      subst
        (λ (t : Bytes).
          Writes (add_value gather none v >> add_items gather xs) t (suc level) level o first
            pretty)
        (item_text (comma first) (line pretty (suc level)) (print pretty (suc level) v)
          (print_items pretty level false xs))
        (Writes-chain (add_value gather none v) (add_items gather xs)
          (front pretty first (suc level) (o (suc level)) none ++ print pretty (suc level) v)
          (print_items pretty level false xs) (suc level) level o first pretty (omega arith)
          (value-Writes v none (suc level) o first pretty e h.0)
          (λ o' same.
            items-Writes xs level o' false pretty (same (suc level) (omega arith) ∙ e) h.1))

  fields-Writes :
      (fs : Fields) (level : ℕ) (o : ℕ → Bool) (first pretty : Bool)
      → o (suc level) ≡ true
      → HasWritable level fs
      → Writes
          (add_fields gather fs)
          (print_fields pretty level first fs)
          (suc level)
          level
          o
          first
          pretty
  fields-Writes no_fields level o first pretty e h = close-Writes level o true first pretty e
  fields-Writes (field name v fs) level o first pretty e h =
      subst
        (λ (t : Bytes).
          Writes (add_value gather (some name) v >> add_fields gather fs) t (suc level) level o
            first pretty)
        (field_text (comma first) (line pretty (suc level)) name (colon pretty)
          (print pretty (suc level) v) (print_fields pretty level false fs) (o (suc level)) e)
        (Writes-chain (add_value gather (some name) v) (add_fields gather fs)
          (front pretty first (suc level) (o (suc level)) (some name) ++ print pretty (suc level) v)
          (print_fields pretty level false fs) (suc level) level o first pretty (omega arith)
          (value-Writes v (some name) (suc level) o first pretty h.0 h.1)
          (λ o' same.
            fields-Writes fs level o' false pretty (same (suc level) (omega arith) ∙ e) h.2))

-- The calls that write a value at the top succeed and gather exactly its text, in the compact
-- and in the pretty form, for every value within the encoder's limits.
pub add_value-print :
    (v : Value) (pretty : Bool)
    → IsWritable 0 v
    → let (code, c) = add_value gather none v (begin_encode pretty []) in
      (code ≡ ksjson_ok) × (c.user_data ≡ print pretty 0 v) × (c.container_level ≡ 0)
add_value-print v pretty h =
    let (o, ran, same) = value-Writes v none 0 (λ _. false) true pretty refl h [] in
    (
      ap (λ (r : ℕ × EncodeContext Bytes). r.0) ran,
      ap (λ (r : ℕ × EncodeContext Bytes). r.1.user_data) ran,
      ap (λ (r : ℕ × EncodeContext Bytes). r.1.container_level) ran,
    )
