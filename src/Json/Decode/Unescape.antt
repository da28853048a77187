-- ===== src/Json/Decode/Unescape.antt =====
-- The decoder reads back the strings that the encoder escapes.
use kscrash.Prelude.{
  and-true, ℕ, zero, suc, ◌-◌, ◌≤◌, ◌<◌, ◌≡◌, refl, ◌⊎◌, inl, inr, Bool, true, false, ◌&&◌, [], ◌∷◌,
  ◌++◌, Option, some, Bytes, arith, ◌==◌, leb-eq_false, if◌then◌else◌, Bool-cases, length,
}
use kscrash.Json.Encode.Text.{is_plain}
use kscrash.Json.Encode.Escape.{is_encodable, all_encodable, escaped_char, escaped}
use kscrash.Json.Decode.Callbacks.{Beyond}
use kscrash.Json.Decode.Text.{
  ok, Quoted, find_quote, simple_escape, unescape_step, unescape, copy_body, decode_string,
}

-- The letter behind the backslash.
escape_letter : ℕ → ℕ
escape_letter c =
    if c == 8
    then b'b'
    else if c == 9
    then b't'
    else if c == 10
    then b'n'
    else if c == 12
    then b'f'
    else if c == 13
    then b'r'
    else c

-- A byte is written as it is, or as a backslash and a letter that stands for it.
abbrev AsItIs : ℕ → Type 0
AsItIs c = (is_plain c ≡ true) × (escaped_char c ≡ c ∷ [])

abbrev Behind : ℕ → Type 0
Behind c =
    (is_plain c ≡ false)
    × (escaped_char c ≡ b'\\' ∷ escape_letter c ∷ [])
    × (simple_escape (escape_letter c) ≡ some c)
    × ((escape_letter c == b'u') ≡ false)

escaped_char-plain : (c : ℕ) → is_plain c ≡ true → escaped_char c ≡ c ∷ []
unfolding escaped_char
escaped_char-plain c h = ground arith

escaped_char-special :
    (c : ℕ)
    → is_encodable c ≡ true
    → is_plain c ≡ false
    → (escaped_char c ≡ b'\\' ∷ escape_letter c ∷ [])
      × (simple_escape (escape_letter c) ≡ some c)
      × ((escape_letter c == b'u') ≡ false)
unfolding escaped_char escape_letter simple_escape is_encodable
escaped_char-special c e h = (ground arith, ground arith, ground arith)

escaped_char-cases : (c : ℕ) → is_encodable c ≡ true → AsItIs c ⊎ Behind c
escaped_char-cases c e = elim (Bool-cases (is_plain c)) [
  | inl plain ↦ inl (plain, escaped_char-plain c plain)
  | inr special ↦
      let (text, letter, ne) = escaped_char-special c e special in inr (special, text, letter, ne)
]

plain-ne : (c : ℕ) → is_plain c ≡ true → ((c == b'"') ≡ false) × ((c == b'\\') ≡ false)
plain-ne c h = ground arith

abbrev all_plain : Bytes → Bool
all_plain [] = true
all_plain (c ∷ cs) = is_plain c && all_plain cs

abbrev found : Bytes → Bool → Bytes → Option Quoted
found body fast_copy rest = some (record { body = body; fast_copy = fast_copy; rest = rest })

find_quote-escaped :
    (s rest : Bytes)
    → all_encodable s ≡ true
    → find_quote false (escaped s ++ b'"' ∷ rest) ≡ found (escaped s) (all_plain s) rest
unfolding find_quote
find_quote-escaped [] rest h = refl
find_quote-escaped (c ∷ cs) rest h =
    let ih = find_quote-escaped cs rest (and-true h).1 in
    elim (escaped_char-cases c (and-true h).0) [
      | inl (plain, text) ↦
          let (quote, slash) = plain-ne c plain in rw (text, plain, quote, slash, ih)
      | inr (special, text, _, _) ↦ rw (text, special, ih)
    ]

unescape_plain :
    (beyond : Beyond) (fuel c : ℕ) (cs t : Bytes)
    → is_plain c ≡ true
    → (1 ≤ fuel → unescape beyond (fuel - 1) cs ≡ ok t)
    → 1 ≤ fuel
    → unescape beyond fuel (c ∷ cs) ≡ ok (c ∷ t)
unfolding unescape
unescape_plain beyond zero c cs t h ih k = absurd (omega arith)
unescape_plain beyond (suc fuel) c cs t h ih k =
    let same : suc fuel - 1 ≡ fuel = omega arith in
    rw ((plain-ne c h).1, unescape, rw same at (ih k))

unescape_letter :
    (beyond : Beyond) (fuel c : ℕ) (cs t : Bytes)
    → simple_escape (escape_letter c) ≡ some c
    → (escape_letter c == b'u') ≡ false
    → (2 ≤ fuel → unescape beyond (fuel - 1) cs ≡ ok t)
    → 2 ≤ fuel
    → unescape beyond fuel (b'\\' ∷ escape_letter c ∷ cs) ≡ ok (c ∷ t)
unfolding unescape unescape_step
unescape_letter beyond zero c cs t h u ih k = absurd (omega arith)
unescape_letter beyond (suc fuel) c cs t h u ih k =
    let same : suc fuel - 1 ≡ fuel = omega arith in rw (u, h, rw same at (ih k))

unescape-escaped :
    (beyond : Beyond) (fuel : ℕ) (s : Bytes)
    → length (escaped s) ≤ fuel
    → all_encodable s ≡ true
    → unescape beyond fuel (escaped s) ≡ ok s
unescape-escaped beyond fuel [] k h = unfold unescape in refl
unescape-escaped beyond fuel (c ∷ cs) k h = elim (escaped_char-cases c (and-true h).0) [
  | inl (plain, text) ↦
      let k' : suc (length (escaped cs)) ≤ fuel = rw text at k in
      rw text (
        unescape_plain beyond fuel c (escaped cs) cs plain
          (λ _. unescape-escaped beyond (fuel - 1) cs (omega arith) (and-true h).1) (omega arith))
  | inr (special, text, letter, ne) ↦
      let k' : suc (suc (length (escaped cs))) ≤ fuel = rw text at k in
      rw text (
        unescape_letter beyond fuel c (escaped cs) cs letter ne
          (λ _. unescape-escaped beyond (fuel - 1) cs (omega arith) (and-true h).1) (omega arith))
]

escaped_plain : (s : Bytes) → all_plain s ≡ true → escaped s ≡ s
escaped_plain [] h = refl
escaped_plain (c ∷ cs) h =
    let (plain, more) = and-true h in rw (escaped_char-plain c plain, escaped_plain cs more)

copy_body-escaped :
    (beyond : Beyond) (s rest : Bytes)
    → all_encodable s ≡ true
    → copy_body beyond (record { body = escaped s; fast_copy = all_plain s; rest = rest })
      ≡ ok (s, rest)
unfolding copy_body
copy_body-escaped beyond s rest h = elim (Bool-cases (all_plain s)) [
  | inl plain ↦ rw (plain, escaped_plain s plain)
  | inr special ↦ rw (special, unescape-escaped beyond (length (escaped s)) s (omega arith) h)
]

-- `decodeString` of an escaped string of encodable bytes in quotes, shorter than the buffer, gives
-- exactly that string, and stops behind the closing quote, whatever follows.
pub decode_string-escaped :
    (beyond : Beyond) (dst_buffer_length : ℕ) (s rest : Bytes)
    → all_encodable s ≡ true
    → length (escaped s) < dst_buffer_length
    → decode_string beyond dst_buffer_length (b'"' ∷ (escaped s ++ b'"' ∷ rest)) ≡ ok (s, rest)
unfolding decode_string
decode_string-escaped beyond n s rest h k =
    rw (find_quote-escaped s rest h, leb-eq_false n (length (escaped s)) k)
      (copy_body-escaped beyond s rest h)
