-- ===== src/Json/Encode/Escape.antt =====
-- What the escaping of strings writes, however the string is cut into portions.
use kscrash.Prelude.{
  and-true, ℕ, zero, suc, ◌*◌, ◌≤◌, ◌≡◌, refl, sym, ap, ◌∙◌, inl, inr, Bool, true, false, ◌&&◌,
  ◌||◌, not, [], ◌∷◌, ◌++◌, append-nil, append_assoc, Option, none, some, Bytes, arith, ◌==◌, ltb,
  if◌then◌else◌, Bool-cases, length, take, drop, length-append, length-take, length-drop,
  take-append-drop,
}
use kscrash.Json.Codes.{ksjson_ok}
use kscrash.Json.Encode.Context.{EncodeContext, Sink, chain}
use kscrash.Json.Encode.Text.{
  work_buffer_size, portion_size, is_plain, escape_char, escape_next, escape_rest, escape_portion,
  append_escaped_string, add_escaped_portions, add_escaped_string, add_quoted_escaped_string,
}

-- A byte that a JSON string can hold as it is or behind a backslash: no control character but
-- backspace, tab, line feed, form feed and carriage return.
unfoldable pub is_encodable : ℕ → Bool
is_encodable c = not (ltb c b' ') || c == 8 || c == 9 || c == 10 || c == 12 || c == 13

abbrev pub all_encodable : Bytes → Bool
all_encodable [] = true
all_encodable (c ∷ cs) = is_encodable c && all_encodable cs

-- The JSON text of one such byte.
unfoldable pub escaped_char : ℕ → Bytes
escaped_char c =
    if c == 8
    then b'\\' ∷ b'b' ∷ []
    else if c == 9
    then b'\\' ∷ b't' ∷ []
    else if c == 10
    then b'\\' ∷ b'n' ∷ []
    else if c == 12
    then b'\\' ∷ b'f' ∷ []
    else if c == 13
    then b'\\' ∷ b'r' ∷ []
    else if c == b'"'
    then b'\\' ∷ b'"' ∷ []
    else if c == b'\\'
    then b'\\' ∷ b'\\' ∷ []
    else c ∷ []

abbrev pub escaped : Bytes → Bytes
escaped [] = []
escaped (c ∷ cs) = escaped_char c ++ escaped cs

abbrev when_encodable : Bool → Bytes → Option Bytes
when_encodable b text = if b then some text else none

escape_char_lem : (c : ℕ) → escape_char c ≡ when_encodable (is_encodable c) (escaped_char c)
unfolding escape_char escaped_char is_encodable
escape_char_lem c = ground arith

escape_rest_lem : (s : Bytes) → escape_rest s ≡ when_encodable (all_encodable s) (escaped s)
unfolding escape_rest
escape_rest_lem [] = refl
escape_rest_lem (c ∷ cs) =
    rw (escape_char_lem c, escape_rest_lem cs) (joined (is_encodable c) (all_encodable cs))
  where
    joined :
        (a b : Bool)
        → escape_next (when_encodable a (escaped_char c)) (when_encodable b (escaped cs))
          ≡ when_encodable (a && b) (escaped_char c ++ escaped cs)
    joined true true = refl
    joined true false = refl
    joined false b = refl

escape_char_plain : (c : ℕ) → is_plain c ≡ true → escape_char c ≡ some (c ∷ [])
unfolding escape_char
escape_char_plain c h = ground arith

-- The first loop of `appendEscapedString` is an optimisation: it does what the second would do.
escape_portion-eq-rest : (s : Bytes) → escape_portion s ≡ escape_rest s
unfolding escape_portion escape_rest
escape_portion-eq-rest [] = refl
escape_portion-eq-rest (c ∷ cs) = elim (Bool-cases (is_plain c)) [
  | inl plain ↦ ground (arith, escape_char_plain c plain, escape_portion-eq-rest cs)
  | inr special ↦ rw special
]

pub escape_portion_lem :
    (s : Bytes) → escape_portion s ≡ when_encodable (all_encodable s) (escaped s)
escape_portion_lem s = escape_portion-eq-rest s ∙ escape_rest_lem s

length-escaped_char : (c : ℕ) → length (escaped_char c) ≤ 2
unfolding escaped_char
length-escaped_char c = ground arith

length-escaped : (s : Bytes) → length (escaped s) ≤ 2 * length s
length-escaped [] = omega arith
length-escaped (c ∷ cs) =
    omega
      (arith, length-escaped_char c, length-escaped cs, length-append (escaped_char c) (escaped cs))

-- What a portion of `addEscapedString` becomes fits the work buffer of `appendEscapedString`,
-- whatever the string.
pub length-escape_portion-le :
    (string text : Bytes)
    → escape_portion (take portion_size string) ≡ some text
    → length text ≤ work_buffer_size
length-escape_portion-le string text h = elim (Bool-cases (all_encodable part)) [
  | inl good ↦
      let text_is : some (escaped part) ≡ some text = rw (escape_portion_lem part, good) at h in
      ground (arith, length-escaped part, length-take portion_size string, text_is)
  | inr bad ↦ let text_is : none ≡ some text = rw (escape_portion_lem part, bad) at h in cc text_is
]
  where
    part : Bytes
    part = take portion_size string

-- The sink that accepts everything, and keeps it.
abbrev pub gather : Sink Bytes
gather bytes out = (ksjson_ok, out ++ bytes)

-- The context with `bytes` added to what was gathered.
abbrev pub gathered : Bytes → EncodeContext Bytes → EncodeContext Bytes
gathered bytes c = record c { user_data = c.user_data ++ bytes }

append_escaped_string-gather :
    (s : Bytes) (c : EncodeContext Bytes)
    → all_encodable s ≡ true
    → append_escaped_string gather s c ≡ (ksjson_ok, gathered (escaped s) c)
unfolding append_escaped_string
append_escaped_string-gather s c h = rw (escape_portion_lem s, h, append_escaped_string)

all_encodable-append : (s t : Bytes) → all_encodable (s ++ t) ≡ (all_encodable s && all_encodable t)
all_encodable-append [] t = refl
all_encodable-append (c ∷ s) t = ground (arith, all_encodable-append s t)

escaped-append : (s t : Bytes) → escaped (s ++ t) ≡ escaped s ++ escaped t
escaped-append [] t = refl
escaped-append (c ∷ s) t =
    rw (escaped-append s t) (sym (append_assoc (escaped_char c) (escaped s) (escaped t)))

split_encodable :
    (n : ℕ) (s : Bytes)
    → all_encodable s ≡ true
    → (all_encodable (take n s) ≡ true) × (all_encodable (drop n s) ≡ true)
split_encodable n s e =
    and-true (sym (all_encodable-append (take n s) (drop n s)) ∙ rw (take-append-drop n s) e)

gathered_split :
    (n : ℕ) (s : Bytes) (c : EncodeContext Bytes)
    → gathered (escaped (drop n s)) (gathered (escaped (take n s)) c) ≡ gathered (escaped s) c
gathered_split n s c =
    ap (λ (out : Bytes). record c { user_data = out })
      (append_assoc c.user_data (escaped (take n s)) (escaped (drop n s))
        ∙ ap (λ (t : Bytes). c.user_data ++ t)
            (sym (escaped-append (take n s) (drop n s)) ∙ ap escaped (take-append-drop n s)))

add_escaped_portions-gather :
    (fuel : ℕ) (s : Bytes) (c : EncodeContext Bytes)
    → length s ≤ fuel
    → all_encodable s ≡ true
    → add_escaped_portions gather fuel s c ≡ (ksjson_ok, gathered (escaped s) c)
unfolding add_escaped_portions
add_escaped_portions-gather fuel [] c h e = rw append-nil
add_escaped_portions-gather zero (x ∷ xs) c h e = absurd (omega arith)
add_escaped_portions-gather (suc fuel) (x ∷ xs) c h e =
    let halves = split_encodable portion_size (x ∷ xs) e in
    chain (append_escaped_string gather (take portion_size (x ∷ xs)))
      (add_escaped_portions gather fuel (drop portion_size (x ∷ xs))) c
      (append_escaped_string-gather (take portion_size (x ∷ xs)) c halves.0)
      (add_escaped_portions-gather fuel (drop portion_size (x ∷ xs))
          (gathered (escaped (take portion_size (x ∷ xs))) c)
          (omega (arith, length-drop portion_size (x ∷ xs))) halves.1
        ∙ ap (λ (c' : EncodeContext Bytes). (ksjson_ok, c'))
            (gathered_split portion_size (x ∷ xs) c))

-- A string of encodable bytes that `addEscapedString` cuts into portions gives the sink the same
-- bytes as one that is escaped byte by byte.
pub add_escaped_string-gather :
    (s : Bytes) (c : EncodeContext Bytes)
    → all_encodable s ≡ true
    → add_escaped_string gather s c ≡ (ksjson_ok, gathered (escaped s) c)
unfolding add_escaped_string
add_escaped_string-gather s c e = add_escaped_portions-gather (length s) s c (omega arith) e

gathered_quoted :
    (s : Bytes) (c : EncodeContext Bytes)
    → gathered (b'"' ∷ []) (gathered (escaped s) (gathered (b'"' ∷ []) c))
      ≡ gathered (b'"' ∷ (escaped s ++ (b'"' ∷ []))) c
gathered_quoted s c = ap (λ (out : Bytes). record c { user_data = out }) (simp append_assoc)

pub add_quoted_escaped_string-gather :
    (s : Bytes) (c : EncodeContext Bytes)
    → all_encodable s ≡ true
    → add_quoted_escaped_string gather s c
      ≡ (ksjson_ok, gathered (b'"' ∷ (escaped s ++ (b'"' ∷ []))) c)
unfolding add_quoted_escaped_string
add_quoted_escaped_string-gather s c e =
    rw (add_escaped_string-gather s (gathered (b'"' ∷ []) c) e)
      (ap (λ (c' : EncodeContext Bytes). (ksjson_ok, c')) (gathered_quoted s c))
