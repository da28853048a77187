-- ===== src/Json/Value/Layout.antt =====
-- How the decoder gets over the white space, the commas and the literals of a printed value.
use kscrash.Prelude.{
  ℕ, zero, suc, ◌≡◌, refl, Bool, true, false, List, [], ◌∷◌, ◌++◌, append_assoc, pos, negsuc, Bytes,
  codes, c_string, arith, ◌==◌, ltb-eq_false, length, length-append, drop-append, inl, inr,
  Bool-cases, ==_refl,
}
use kscrash.Prelude.{if◌then◌else◌, ◌∙◌, ap}
use kscrash.Json.Codes.{ksjson_ok}
use kscrash.Json.Encode.Number.{DoubleOps, decimal}
use kscrash.Json.Encode.Escape.{is_encodable, all_encodable, escaped}
use kscrash.Json.Decode.Callbacks.{Beyond, Callbacks}
use kscrash.Json.Decode.Number.{is_digit}
use kscrash.Json.Decode.Digits.{ends_number, decimal_head}
use kscrash.Json.Decode.Element.{
  Outcome, more, stop, out_of_fuel, and_then, called, is_space, skip_whitespace, skip_comma,
  starts_with, decode_literal,
}
use kscrash.Json.Event.{Event, deliver, replay}
use kscrash.Json.Value.{
  Value, Items, Fields, null, boolean, integer, unsigned, string, array, object, no_items, item,
  no_fields, field, colon, indent, line, print, print_items, print_fields,
}

pub skip_whitespace-cons :
    (c : ℕ) (cs : Bytes) → is_space c ≡ false → skip_whitespace (c ∷ cs) ≡ c ∷ cs
unfolding skip_whitespace
skip_whitespace-cons c cs h = rw h

skip_indent : (n : ℕ) (t : Bytes) → skip_whitespace (indent n ++ t) ≡ skip_whitespace t
unfolding skip_whitespace
skip_indent zero t = refl
skip_indent (suc n) t = skip_indent n t

pub skip_line :
    (pretty : Bool) (level : ℕ) (t : Bytes)
    → skip_whitespace (line pretty level ++ t) ≡ skip_whitespace t
unfolding skip_whitespace
skip_line false level t = refl
skip_line true level t = skip_indent level t

-- Behind an item the decoder finds what it finds behind the opening bracket.
pub after_item :
    (pretty : Bool) (level : ℕ) (xs : Items) (rest : Bytes)
    → skip_whitespace (skip_comma (skip_whitespace (print_items pretty level false xs ++ rest)))
      ≡ skip_whitespace (print_items pretty level true xs ++ rest)
unfolding print skip_whitespace
after_item pretty level no_items rest = rw (append_assoc, skip_line pretty level (b']' ∷ rest))
after_item pretty level (item v xs) rest = refl

pub after_field :
    (pretty : Bool) (level : ℕ) (fs : Fields) (rest : Bytes)
    → skip_whitespace (skip_comma (skip_whitespace (print_fields pretty level false fs ++ rest)))
      ≡ skip_whitespace (print_fields pretty level true fs ++ rest)
unfolding print skip_whitespace
after_field pretty level no_fields rest = rw (append_assoc, skip_line pretty level (b'}' ∷ rest))
after_field pretty level (field name v fs) rest = refl

-- What follows an item ends a number.
pub items-ends :
    (pretty : Bool) (level : ℕ) (xs : Items) (rest : Bytes)
    → ends_number (print_items pretty level false xs ++ rest) ≡ true
unfolding print
items-ends true level no_items rest = refl
items-ends false level no_items rest = refl
items-ends pretty level (item v xs) rest = refl

pub fields-ends :
    (pretty : Bool) (level : ℕ) (fs : Fields) (rest : Bytes)
    → ends_number (print_fields pretty level false fs ++ rest) ≡ true
unfolding print
fields-ends true level no_fields rest = refl
fields-ends false level no_fields rest = refl
fields-ends pretty level (field name v fs) rest = refl

-- The text of a value begins with a byte that is neither white space nor a closing bracket.
pub record Head (text : Bytes) : Type 0 where
  pub first : ℕ
  pub others : Bytes
  pub text_is : text ≡ first ∷ others
  pub no_space : is_space first ≡ false
  pub no_bracket : (first == b']') ≡ false

abbrev begins : (c : ℕ) (cs : Bytes) → is_space c ≡ false → (c == b']') ≡ false → Head (c ∷ cs)
begins c cs h k = record { first = c; others = cs; text_is = refl; no_space = h; no_bracket = k }

digit_head : (n : ℕ) (rest : Bytes) → Head (decimal n ++ rest)
digit_head n rest =
    let (c, cs, text, digit) = decimal_head 19 n rest in
    record {
      first = c;
      others = cs;
      text_is = text;
      no_space = digit_no_space c digit;
      no_bracket = digit_no_bracket c digit;
    }
  where
    digit_no_space : (c : ℕ) → is_digit c ≡ true → is_space c ≡ false
    digit_no_space c h = ground arith

    digit_no_bracket : (c : ℕ) → is_digit c ≡ true → (c == b']') ≡ false
    digit_no_bracket c h = ground arith

pub print-Head :
    (pretty : Bool) (level : ℕ) (v : Value) (rest : Bytes) → Head (print pretty level v ++ rest)
unfolding print
print-Head pretty level null rest = begins b'n' (codes "ull" ++ rest) refl refl
print-Head pretty level (boolean true) rest = begins b't' (codes "rue" ++ rest) refl refl
print-Head pretty level (boolean false) rest = begins b'f' (codes "alse" ++ rest) refl refl
print-Head pretty level (integer (pos n)) rest = digit_head n rest
print-Head pretty level (integer (negsuc n)) rest = begins b'-' (decimal (suc n) ++ rest) refl refl
print-Head pretty level (unsigned n) rest = digit_head n rest
print-Head pretty level (string s) rest = begins b'"' ((escaped s ++ (b'"' ∷ [])) ++ rest) refl refl
print-Head pretty level (array xs) rest =
    begins b'[' (print_items pretty level true xs ++ rest) refl refl
print-Head pretty level (object fs) rest =
    begins b'{' (print_fields pretty level true fs ++ rest) refl refl

pub skip_text : {text : Bytes} → Head text → skip_whitespace text ≡ text
skip_text h = rw h.text_is (skip_whitespace-cons h.first h.others h.no_space)

pub item_front :
    (pretty : Bool) (level : ℕ) (v : Value) (xs : Items) (rest : Bytes)
    → skip_whitespace (print_items pretty level true (item v xs) ++ rest)
      ≡ print pretty (suc level) v ++ (print_items pretty level false xs ++ rest)
unfolding print
item_front pretty level v xs rest =
    ap skip_whitespace (append_assoc (line pretty (suc level)) (p ++ q) rest)
    ∙ skip_line pretty (suc level) ((p ++ q) ++ rest)
    ∙ ap skip_whitespace (append_assoc p q rest)
    ∙ skip_text (print-Head pretty (suc level) v (q ++ rest))
  where
    p : Bytes
    p = print pretty (suc level) v

    q : Bytes
    q = print_items pretty level false xs

-- The space behind a colon.
abbrev pub gap : Bool → Bytes
gap pretty = if pretty then codes " " else []

pub skip_colon :
    (pretty : Bool) (t : Bytes) → skip_whitespace (colon pretty ++ t) ≡ b':' ∷ (gap pretty ++ t)
unfolding skip_whitespace
skip_colon true t = refl
skip_colon false t = refl

pub skip_gap :
    (pretty : Bool) {t : Bytes} → Head t → skip_whitespace (skip_whitespace (gap pretty ++ t)) ≡ t
skip_gap true {t} h = rw (skip_space t, skip_text h) (skip_text h)
  where
    skip_space : (t : Bytes) → skip_whitespace (b' ' ∷ t) ≡ skip_whitespace t
    skip_space t = unfold skip_whitespace in refl
skip_gap false h = rw (skip_text h) (skip_text h)

pub field_front :
    (pretty : Bool) (level : ℕ) (name : Bytes) (v : Value) (fs : Fields) (rest : Bytes)
    → skip_whitespace (print_fields pretty level true (field name v fs) ++ rest)
      ≡ b'"'
        ∷ (escaped name
            ++ b'"'
              ∷ (colon pretty
                  ++ (print pretty (suc level) v ++ (print_fields pretty level false fs ++ rest))))
unfolding print
field_front pretty level name v fs rest =
    ap skip_whitespace (append_assoc (line pretty (suc level)) _ rest)
    ∙ skip_line pretty (suc level) _
    ∙ skip_whitespace-cons b'"' _ refl
    ∙ simp append_assoc

-- An encodable string holds no NUL, so a C string's reader sees all of it.
c_string-cons : (c : ℕ) → is_encodable c ≡ true → (c == 0) ≡ false
unfolding is_encodable
c_string-cons c h = ground arith

pub c_string_lem : (s : Bytes) → all_encodable s ≡ true → c_string s ≡ s
c_string_lem [] h = refl
c_string_lem (c ∷ cs) h = elim (Bool-cases (is_encodable c)) [
  | inl good ↦ rw (c_string-cons c good, c_string_lem cs (rw good at h))
  | inr bad ↦ cc (rw bad at h)
]

starts_with-append : (xs ys : Bytes) → starts_with xs (xs ++ ys) ≡ true
starts_with-append [] ys = refl
starts_with-append (x ∷ xs) ys = rw (==_refl x, starts_with-append xs ys)

and_then-more : {S : Type 0} (o : Outcome S) → and_then o more ≡ o
and_then-more (more rest s) = refl
and_then-more (stop r s) = refl
and_then-more out_of_fuel = refl

-- What `k` does in front of `cs` is what `k'` does in front of `rest`.
pub called-and_then :
    {S : Type 0} (x : ℕ × S) (cs rest : Bytes) (k k' : Bytes → S → Outcome S)
    → ((s : S) → k cs s ≡ k' rest s)
    → and_then (called x cs) k ≡ and_then (called x rest) k'
called-and_then x cs rest k k' h = elim (Bool-cases (x.0 == ksjson_ok)) [
  | inl ok ↦ rw ok (h x.1)
  | inr failed ↦ rw failed
]

module _ (ops : DoubleOps) (beyond : Beyond) {S : Type 0} (callbacks : Callbacks ops.Double S) where
  pub decode_literal_lem :
      (letters rest : Bytes) (callback : S → ℕ × S) (s : S)
      → decode_literal ops beyond callbacks letters (letters ++ rest) callback s
        ≡ called (callback s) rest
  unfolding decode_literal
  decode_literal_lem letters rest callback s = rw (
    ltb-eq_false (length (letters ++ rest)) (length letters)
        (omega (arith, length-append letters rest)),
    starts_with-append letters rest,
    drop-append letters rest,
  )

module _ {D S : Type 0} (callbacks : Callbacks D S) where
  pub replay-one :
      (e : Event D) (rest : Bytes) (s : S)
      → replay callbacks (e ∷ []) rest s ≡ called (deliver callbacks e s) rest
  unfolding replay
  replay-one e rest s = and_then-more (called (deliver callbacks e s) rest)

  pub replay-cons :
      (e : Event D) (es : List (Event D)) (rest : Bytes) (s : S)
      → replay callbacks (e ∷ es) rest s
        ≡ and_then (called (deliver callbacks e s) rest) (replay callbacks es)
  unfolding replay
  replay-cons e es rest s = refl

  pub replay-append :
      (es es' : List (Event D)) (rest rest' : Bytes) (s : S) (k : Bytes → S → Outcome S)
      → ((s' : S) → k rest s' ≡ replay callbacks es' rest' s')
      → and_then (replay callbacks es rest s) k ≡ replay callbacks (es ++ es') rest' s
  unfolding replay
  replay-append [] es' rest rest' s k h = h s
  replay-append (e ∷ es) es' rest rest' s k h =
      let x = deliver callbacks e s in
      elim (Bool-cases (x.0 == ksjson_ok)) [
        | inl ok ↦ rw ok (replay-append es es' rest rest' x.1 k h)
        | inr failed ↦ rw failed
      ]
