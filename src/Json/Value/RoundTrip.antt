-- ===== src/Json/Value/RoundTrip.antt =====
-- What the encoder writes, the decoder reads back.
use kscrash.Prelude.{
  ℕ, suc, ◌+◌, ◌-◌, ◌*◌, ◌/◌, ◌≤◌, ◌≡◌, sym, ap, ◌∙◌, Bool, true, false, [], ◌∷◌, ◌++◌, append-nil,
  Option, none, Bytes, arith, length, length-append, if◌then◌else◌,
}
use kscrash.Json.Encode.Number.{DoubleOps}
use kscrash.Json.Encode.Escape.{gather}
use kscrash.Json.Encode.Element.{begin_encode}
use kscrash.Json.Decode.Callbacks.{Beyond, Callbacks}
use kscrash.Json.Decode.Element.{decode_element, skip_whitespace, finish, enough_fuel, decode}
use kscrash.Json.Event.{replay}
use kscrash.Json.Value.{
  Value, Items, Fields, null, boolean, integer, unsigned, string, array, object, no_items, item,
  no_fields, field, comma, line, quoted, colon, print, print_items, print_fields, events, add_value,
  IsWritable, Fits,
}
use kscrash.Json.Value.Layout.{print-Head, skip_text}
use kscrash.Json.Value.Write.{add_value-print}
use kscrash.Json.Value.Read.{cost, cost_items, cost_fields, Closes, value-Reads}

-- A document: an array or an object, which ends by itself.
abbrev pub IsContainer : Value → Type 0
IsContainer (array xs) = Unit
IsContainer (object fs) = Unit
IsContainer _ = ⊥

length-print_pos : (pretty : Bool) (level : ℕ) (v : Value) → 1 ≤ length (print pretty level v)
length-print_pos pretty level v =
    let h = print-Head pretty level v [] in
    omega (arith, ap length (append-nil (print pretty level v)), ap length h.text_is)

lengths : (c l t r : Bytes) → length t + length r ≤ length (c ++ (l ++ (t ++ r)))
lengths c l t r =
    omega (arith, length-append c (l ++ (t ++ r)), length-append l (t ++ r), length-append t r)

module _ (pretty : Bool) where
  mutual
    unfolding print cost

    cost-le : (v : Value) (level : ℕ) → suc (cost v) ≤ 2 * length (print pretty level v)
    cost-le null level = omega arith
    cost-le (boolean true) level = omega arith
    cost-le (boolean false) level = omega arith
    cost-le (integer n) level = omega (arith, length-print_pos pretty level (integer n))
    cost-le (unsigned n) level = omega (arith, length-print_pos pretty level (unsigned n))
    cost-le (string s) level = omega (arith, length-print_pos pretty level (string s))
    cost-le (array xs) level = omega (arith, cost_items-le xs level true)
    cost-le (object fs) level = omega (arith, cost_fields-le fs level true)

    cost_items-le :
        (xs : Items) (level : ℕ) (first : Bool)
        → cost_items xs ≤ 2 * length (print_items pretty level first xs)
    cost_items-le no_items level first =
        omega (arith, length-append (if first then [] else line pretty level) (b']' ∷ []))
    cost_items-le (item v xs) level first = omega (
      arith,
      cost-le v (suc level),
      cost_items-le xs level false,
      lengths (comma first) (line pretty (suc level)) (print pretty (suc level) v)
          (print_items pretty level false xs),
    )

    cost_fields-le :
        (fs : Fields) (level : ℕ) (first : Bool)
        → cost_fields fs ≤ 2 * length (print_fields pretty level first fs)
    cost_fields-le no_fields level first =
        omega (arith, length-append (if first then [] else line pretty level) (b'}' ∷ []))
    cost_fields-le (field name v fs) level first =
        let p = print pretty (suc level) v in
        let q = print_fields pretty level false fs in
        omega (
          arith,
          cost-le v (suc level),
          cost_fields-le fs level false,
          lengths (comma first) (line pretty (suc level)) (quoted name) (colon pretty ++ (p ++ q)),
          length-append (colon pretty) (p ++ q),
          length-append p q,
        )

module _ (ops : DoubleOps) (beyond : Beyond) {S : Type 0} (callbacks : Callbacks ops.Double S) where
  -- Decoding the text of a document makes its callbacks, with the fuel that the decoder has.
  pub container-Reads :
      (v : Value) (pretty : Bool) (names strings : ℕ) (name : Option Bytes) (s : S)
      → IsContainer v
      → IsWritable 0 v
      → Fits names strings v
      → decode_element ops beyond callbacks names strings
          (enough_fuel (print pretty 0 v))
          name
          (print pretty 0 v)
          s
        ≡ replay callbacks (events name v) [] s
  container-Reads v pretty names strings name s i w f =
      value-Reads ops beyond callbacks pretty names strings v 0 w f (enough_fuel (print pretty 0 v))
        name (print pretty 0 v) [] s (omega (arith, cost-le pretty v 0)) (IsContainer-Closes v i)
        (text ∙ sym (append-nil (print pretty 0 v)))
    where
      IsContainer-Closes : (v : Value) → IsContainer v → Closes v []
      IsContainer-Closes (array xs) i = tt
      IsContainer-Closes (object fs) i = tt
      IsContainer-Closes _ i = absurd i

      text : skip_whitespace (print pretty 0 v) ≡ print pretty 0 v
      text =
          ap skip_whitespace (sym (append-nil (print pretty 0 v)))
          ∙ skip_text (print-Head pretty 0 v [])
          ∙ append-nil (print pretty 0 v)

  container-decode :
      (v : Value) (pretty : Bool) (len : ℕ) (s : S)
      → IsContainer v
      → IsWritable 0 v
      → Fits (len / 4) (len - len / 4) v
      → decode ops beyond callbacks (print pretty 0 v) len s
        ≡ finish ops beyond callbacks (replay callbacks (events none v) [] s)
  unfolding decode
  container-decode v pretty len s i w f =
      ap (finish ops beyond callbacks)
        (container-Reads v pretty (len / 4) (len - len / 4) none s i w f)

module _ (ops : DoubleOps) (beyond : Beyond) where
  -- Encoding a document and decoding the text makes exactly the callbacks of the document, in
  -- order, up to the first that returns an error; then `onEndData`, if there is none. This holds
  -- for any callbacks, in the compact and the pretty form, and whatever lies past the input, if
  -- the document is within the encoder's limits and its strings fit the two parts of the buffer.
  pub decode-encode :
      {S : Type 0} (callbacks : Callbacks ops.Double S) (v : Value) (pretty : Bool)
      (string_buffer_length : ℕ) (s : S)
      → IsContainer v
      → IsWritable 0 v
      → Fits (string_buffer_length / 4) (string_buffer_length - string_buffer_length / 4) v
      → decode ops beyond callbacks
          (add_value gather none v (begin_encode pretty [])).1.user_data
          string_buffer_length
          s
        ≡ finish ops beyond callbacks (replay callbacks (events none v) [] s)
  decode-encode callbacks v pretty len s i w f =
      let (_, text, _) = add_value-print v pretty w in
      rw text (container-decode ops beyond callbacks v pretty len s i w f)
