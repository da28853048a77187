-- ===== src/Json/Value/Read.antt =====
-- The decoder reports the events of a value from its text.
use kscrash.Prelude.{
  ℕ, zero, suc, ◌+◌, ◌≤◌, ◌<◌, ◌≡◌, refl, sym, ◌∙◌, ◌⊎◌, Bool, true, false, ◌∷◌, ◌++◌, append_assoc,
  Option, none, some, pos, negsuc, Bytes, codes, arith, ◌==◌, leb, le→leb, leb-eq_false,
  if◌then◌else◌, int64_max, uint64_max,
}
use kscrash.Json.Encode.Number.{DoubleOps, decimal}
use kscrash.Json.Decode.Callbacks.{Beyond, Callbacks}
use kscrash.Json.Decode.Unescape.{decode_string-escaped}
use kscrash.Json.Decode.Number.{Number, is_digit, decode_unsigned}
use kscrash.Json.Decode.Digits.{
  ends_number, decimal_head, decode_unsigned-decimal, decode_negative-decimal,
}
use kscrash.Json.Decode.Element.{
  Outcome, called, decoded, skip_whitespace, skip_comma, on_number, decode_at, decode_front,
  decode_element, array_loop, object_loop,
}
use kscrash.Json.Event.{replay}
use kscrash.Json.Value.{
  Value, Items, Fields, null, boolean, integer, unsigned, string, array, object, no_items, item,
  no_fields, field, colon, print, print_items, print_fields, events, item_events, field_events,
  IsWritable, AreWritable, HasWritable, Fits, AllFit, FieldsFit,
}
use kscrash.Json.Value.Layout.{
  skip_whitespace-cons, item_front, gap, skip_colon, skip_gap, field_front, after_item, after_field,
  items-ends, fields-ends, print-Head, c_string_lem, called-and_then, decode_literal_lem,
  replay-one, replay-cons, replay-append,
}

digit-ne : (c k : ℕ) → is_digit c ≡ true → (k < b'0') ⊎ (b'9' < k) → (c == k) ≡ false
digit-ne c k h out = ground arith

-- The calls that a value takes: one for itself, and one for each round of a loop.
unfoldable mutual
  pub cost : Value → ℕ
  cost (array xs) = suc (cost_items xs)
  cost (object fs) = suc (cost_fields fs)
  cost null = 1
  cost (boolean b) = 1
  cost (integer n) = 1
  cost (unsigned n) = 1
  cost (string s) = 1

  pub cost_items : Items → ℕ
  cost_items no_items = 1
  cost_items (item v xs) = suc (cost v + cost_items xs)

  pub cost_fields : Fields → ℕ
  cost_fields no_fields = 1
  cost_fields (field name v fs) = suc (cost v + cost_fields fs)

-- A number needs something behind it that ends it; any other text ends by itself.
abbrev pub Closes : Value → Bytes → Type 0
Closes (integer n) rest = ends_number rest ≡ true
Closes (unsigned n) rest = ends_number rest ≡ true
Closes _ rest = Unit

Closes_lem : (v : Value) (rest : Bytes) → ends_number rest ≡ true → Closes v rest
Closes_lem (integer n) rest h = h
Closes_lem (unsigned n) rest h = h
Closes_lem _ rest h = tt

module _ (ops : DoubleOps) (beyond : Beyond) {S : Type 0} (callbacks : Callbacks ops.Double S)
    (pretty : Bool) (name_len string_len : ℕ) where
  abbrev element : ℕ → Option Bytes → Bytes → S → Outcome S
  element = decode_element ops beyond callbacks name_len string_len

  abbrev ReadsValue : ℕ → Value → Type 0
  ReadsValue level v =
      (fuel : ℕ) (name : Option Bytes) (input rest : Bytes) (s : S)
      → cost v ≤ fuel
      → Closes v rest
      → skip_whitespace input ≡ print pretty level v ++ rest
      → element fuel name input s ≡ replay callbacks (events name v) rest s

  decode_at_digit :
      (loop loop' : Bytes → S → Outcome S) (name : Option Bytes) (c : ℕ) (cs : Bytes) (s : S)
      → is_digit c ≡ true
      → decode_at ops beyond callbacks name_len string_len loop loop' name c cs s
        ≡ decoded
            (decode_unsigned ops false string_len (c ∷ cs))
            s
            λ (n, rest). called (on_number ops beyond callbacks name n s) rest
  unfolding decode_at
  decode_at_digit loop loop' name c cs s h =
      let ne = λ (k : ℕ) (out : (k < b'0') ⊎ (b'9' < k)). digit-ne c k h out in
      rw (
        ne b'[' (omega arith),
        ne b'{' (omega arith),
        ne b'"' (omega arith),
        ne b'f' (omega arith),
        ne b't' (omega arith),
        ne b'n' (omega arith),
        ne b'-' (omega arith),
        h,
      )

  number-Reads :
      (loop loop' : Bytes → S → Outcome S) (name : Option Bytes) (n : ℕ) (rest : Bytes) (s : S)
      → n ≤ uint64_max
      → ends_number rest ≡ true
      → decode_front ops beyond callbacks name_len string_len loop loop' name (decimal n ++ rest) s
        ≡ called
            (on_number ops beyond callbacks name
              (if leb n int64_max then Number.integer (pos n) else Number.unsigned n)
              s)
            rest
  number-Reads loop loop' name n rest s k h =
      let (c, cs, text, digit) = decimal_head 19 n rest in
      rw (text, decode_at_digit loop loop' name c cs s digit)
        (rw (← text, decode_unsigned-decimal ops string_len rest h false n k k))

  mutual
    unfolding print events IsWritable Fits cost decode_element decode_at

    pub value-Reads :
        (v : Value) (level : ℕ)
        → IsWritable level v
        → Fits name_len string_len v
        → ReadsValue level v
    value-Reads null level w f zero name input rest s k c e = absurd (omega arith)
    value-Reads null level w f (suc fuel) name input rest s k c e =
        rw (e, replay-one)
          (decode_literal_lem ops beyond callbacks (codes "ull") rest
            (callbacks.on_null_element name) s)
    value-Reads (boolean true) level w f zero name input rest s k c e = absurd (omega arith)
    value-Reads (boolean true) level w f (suc fuel) name input rest s k c e =
        rw (e, replay-one)
          (decode_literal_lem ops beyond callbacks (codes "rue") rest
            (callbacks.on_boolean_element name true) s)
    value-Reads (boolean false) level w f zero name input rest s k c e = absurd (omega arith)
    value-Reads (boolean false) level w f (suc fuel) name input rest s k c e =
        rw (e, replay-one)
          (decode_literal_lem ops beyond callbacks (codes "alse") rest
            (callbacks.on_boolean_element name false) s)
    value-Reads (integer i) level w f zero name input rest s k c e = absurd (omega arith)
    value-Reads (integer (pos n)) level w f (suc fuel) name input rest s k c e = rw (
      e,
      number-Reads (array_loop ops beyond callbacks name_len string_len fuel)
          (object_loop ops beyond callbacks name_len string_len fuel) name n rest s (omega arith) c,
      replay-one,
      le→leb n int64_max w,
    )
    value-Reads (integer (negsuc n)) level w f (suc fuel) name input rest s k c e =
        rw (e, replay-one, decode_negative-decimal ops string_len rest c beyond n w)
    value-Reads (unsigned n) level w f zero name input rest s k c e = absurd (omega arith)
    value-Reads (unsigned n) level w f (suc fuel) name input rest s k c e = rw (
      e,
      number-Reads (array_loop ops beyond callbacks name_len string_len fuel)
          (object_loop ops beyond callbacks name_len string_len fuel) name n rest s w.1 c,
      replay-one,
      leb-eq_false n int64_max w.0,
    )
    value-Reads (string t) level w f zero name input rest s k c e = absurd (omega arith)
    value-Reads (string t) level w f (suc fuel) name input rest s k c e = rw (
      e,
      append_assoc,
      decode_string-escaped beyond string_len t rest w f,
      replay-one,
      c_string_lem t w,
    )
    value-Reads (array xs) level w f zero name input rest s k c e = absurd (omega arith)
    value-Reads (array xs) level w f (suc fuel) name input rest s k c e =
        rw (e, replay-cons)
          (called-and_then (callbacks.on_begin_array name s)
            (print_items pretty level true xs ++ rest) rest
            (array_loop ops beyond callbacks name_len string_len fuel)
            (replay callbacks (item_events xs))
            (λ s'.
              items-Reads xs level w.1 f fuel (print_items pretty level true xs ++ rest) rest s'
                (omega arith) refl))
    value-Reads (object fs) level w f zero name input rest s k c e = absurd (omega arith)
    value-Reads (object fs) level w f (suc fuel) name input rest s k c e =
        rw (e, replay-cons)
          (called-and_then (callbacks.on_begin_object name s)
            (print_fields pretty level true fs ++ rest) rest
            (object_loop ops beyond callbacks name_len string_len fuel)
            (replay callbacks (field_events fs))
            (λ s'.
              fields-Reads fs level w.1 f fuel (print_fields pretty level true fs ++ rest) rest s'
                (omega arith) refl))

    items-Reads :
        (xs : Items) (level : ℕ)
        → AreWritable level xs
        → AllFit name_len string_len xs
        → (fuel : ℕ) (input rest : Bytes) (s : S) → cost_items xs ≤ fuel
        → skip_whitespace input ≡ skip_whitespace (print_items pretty level true xs ++ rest)
        → array_loop ops beyond callbacks name_len string_len fuel input s
          ≡ replay callbacks (item_events xs) rest s
    items-Reads no_items level w f zero input rest s k e = absurd (omega arith)
    items-Reads no_items level w f (suc fuel) input rest s k e =
        rw (e, skip_whitespace-cons b']' rest refl, replay-one)
    items-Reads (item v xs) level w f zero input rest s k e = absurd (omega arith)
    items-Reads (item v xs) level w f (suc fuel) input rest s k e =
        let tail = print_items pretty level false xs ++ rest in
        let h = print-Head pretty (suc level) v tail in
        let front : skip_whitespace input ≡ print pretty (suc level) v ++ tail =
          e ∙ item_front pretty level v xs rest in
        rw (front, h.text_is, h.no_bracket)
          (rw
            (value-Reads v (suc level) w.0 f.0 fuel none (h.first ∷ h.others) tail s (omega arith)
              (Closes_lem v tail (items-ends pretty level xs rest))
              (skip_whitespace-cons h.first h.others h.no_space ∙ sym h.text_is))
            (replay-append callbacks (events none v) (item_events xs) tail rest s
              (λ rest s'.
                array_loop ops beyond callbacks name_len string_len fuel
                  (skip_comma (skip_whitespace rest)) s')
              (λ s'.
                items-Reads xs level w.1 f.1 fuel (skip_comma (skip_whitespace tail)) rest s'
                  (omega arith) (after_item pretty level xs rest))))

    fields-Reads :
        (fs : Fields) (level : ℕ)
        → HasWritable level fs
        → FieldsFit name_len string_len fs
        → (fuel : ℕ) (input rest : Bytes) (s : S) → cost_fields fs ≤ fuel
        → skip_whitespace input ≡ skip_whitespace (print_fields pretty level true fs ++ rest)
        → object_loop ops beyond callbacks name_len string_len fuel input s
          ≡ replay callbacks (field_events fs) rest s
    fields-Reads no_fields level w f zero input rest s k e = absurd (omega arith)
    fields-Reads no_fields level w f (suc fuel) input rest s k e =
        rw (e, skip_whitespace-cons b'}' rest refl, replay-one)
    fields-Reads (field name v fs) level w f zero input rest s k e = absurd (omega arith)
    fields-Reads (field name v fs) level w f (suc fuel) input rest s k e =
        let tail = print_fields pretty level false fs ++ rest in
        let value = print pretty (suc level) v ++ tail in
        rw
          (
            e ∙ field_front pretty level name v fs rest,
            decode_string-escaped beyond name_len name (colon pretty ++ value) w.0 f.0,
            c_string_lem name w.0,
            skip_colon pretty value,
          )
          (rw
            (value-Reads v (suc level) w.1 f.1 fuel (some name)
              (skip_whitespace (gap pretty ++ value)) tail s (omega arith)
              (Closes_lem v tail (fields-ends pretty level fs rest))
              (skip_gap pretty (print-Head pretty (suc level) v tail)))
            (replay-append callbacks (events (some name) v) (field_events fs) tail rest s
              (λ rest s'.
                object_loop ops beyond callbacks name_len string_len fuel
                  (skip_comma (skip_whitespace rest)) s')
              (λ s'.
                fields-Reads fs level w.2 f.2 fuel (skip_comma (skip_whitespace tail)) rest s'
                  (omega arith) (after_field pretty level fs rest))))
