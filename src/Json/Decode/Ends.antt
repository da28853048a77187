-- ===== src/Json/Decode/Ends.antt =====
-- The decoder ends on every input: each part reads at least a byte, so the fuel is enough.
pub mod Element
use kscrash.Prelude.{
  ℕ, zero, suc, ◌+◌, ◌-◌, ◌*◌, ◌/◌, uint64_max, int64_max, take, ltb-eq_false, pos, ◌&&◌, not, ◌≤◌,
  ◌<◌, ◌≡◌, ◌≢◌, refl, ap, ◌⊎◌, inl, inr, Bool, true, false, [], ◌∷◌, ◌++◌, Option, none, some,
  Bytes, arith, ◌==◌, ltb, leb, if◌then◌else◌, length, drop, length-drop, Bool-cases, if-both,
  codes, c_string,
}
use kscrash.Json.Codes.{ksjson_error_incomplete, ksjson_error_data_too_long}
use kscrash.Json.Encode.Number.{DoubleOps}
use kscrash.Json.Decode.Callbacks.{Beyond, Callbacks}
use kscrash.Json.Decode.Text.{
  Decoded, ok, err, ◌>>=◌, Quoted, Quoted-cons, find_quote, unescape, copy_body, decode_string,
}
use kscrash.Json.Decode.Number.{
  Number, floating, integer, unsigned, opposite, Digits, is_digit, is_fp_char, scan_digits, skip_fp,
  scan_double, finish_number, decode_unsigned, decode_negative,
}
use kscrash.Json.Decode.Element.{
  Outcome, more, stop, out_of_fuel, and_then, called, decoded, skip_whitespace, skip_comma,
  is_space, enough_fuel, decode_literal, decode_at, decode_front, array_round, object_value,
  object_round, decode_element, array_loop, object_loop, finish, decode, on_number, starts_with,
}

-- It ends, with fewer than `n` bytes left if it goes on.
abbrev pub Ends : {S : Type 0} → ℕ → Outcome S → Type 0
Ends n (more rest s) = length rest < n
Ends n (stop r s) = Unit
Ends n out_of_fuel = ⊥

-- What it leaves is shorter than `n`.
abbrev pub Shortens : {A : Type 0} → ℕ → Decoded (A × Bytes) → Type 0
Shortens n (ok (a, rest)) = length rest < n
Shortens n (err e) = Unit

module _ {S : Type 0} where
  pub Ends-mono : (m n : ℕ) (o : Outcome S) → m ≤ n → Ends m o → Ends n o
  Ends-mono m n (more rest s) h k = omega (arith, h, k)
  Ends-mono m n (stop r s) h k = tt
  Ends-mono m n out_of_fuel h k = absurd k

  pub called-Ends : (n : ℕ) (p : ℕ × S) (rest : Bytes) → length rest < n → Ends n (called p rest)
  called-Ends n (r, s) rest h = if-both (Ends n) (r == 0) h tt

  pub and_then-Ends :
      (m n : ℕ) (o : Outcome S) (k : Bytes → S → Outcome S)
      → Ends m o
      → ((rest : Bytes) (s : S) → length rest < m → Ends n (k rest s))
      → Ends n (and_then o k)
  and_then-Ends m n (more rest s) k h all = all rest s h
  and_then-Ends m n (stop r s) k h all = tt
  and_then-Ends m n out_of_fuel k h all = absurd h

  pub decoded-Ends :
      {A : Type 0} (m n : ℕ) (d : Decoded (A × Bytes)) (s : S) (k : A × Bytes → Outcome S)
      → Shortens m d
      → ((a : A) (rest : Bytes) → length rest < m → Ends n (k (a, rest)))
      → Ends n (decoded d s k)
  decoded-Ends m n (ok (a, rest)) s k h all = all a rest h
  decoded-Ends m n (err e) s k h all = tt

pub length-skip_whitespace : (cs : Bytes) → length (skip_whitespace cs) ≤ length cs
unfolding skip_whitespace
length-skip_whitespace [] = omega arith
length-skip_whitespace (c ∷ cs) =
    if-both (λ (t : Bytes). length t ≤ suc (length cs)) (is_space c)
      (omega (arith, length-skip_whitespace cs)) (omega arith)

pub length-skip_comma : (cs : Bytes) → length (skip_comma cs) ≤ length cs
length-skip_comma [] = omega arith
length-skip_comma (c ∷ cs) =
    if-both (λ (t : Bytes). length t ≤ suc (length cs)) (c == b',') (omega arith) (omega arith)

length-skip_fp : (cs : Bytes) → length (skip_fp cs) ≤ length cs
unfolding skip_fp
length-skip_fp [] = omega arith
length-skip_fp (c ∷ cs) =
    if-both (λ (t : Bytes). length t ≤ suc (length cs)) (is_fp_char c)
      (omega (arith, length-skip_fp cs)) (omega arith)

-- The closing quote is behind what was searched.
abbrev QuoteIs : ℕ → Option Quoted → Type 0
QuoteIs n none = Unit
QuoteIs n (some q) = length q.rest < n

Quoted-cons-QuoteIs :
    (n c : ℕ) (plain : Bool) (o : Option Quoted)
    → QuoteIs n o
    → QuoteIs (suc n) (Quoted-cons c plain o)
Quoted-cons-QuoteIs n c plain none h = tt
Quoted-cons-QuoteIs n c plain (some q) h = omega (arith, h)

find_quote-QuoteIs : (skipped : Bool) (cs : Bytes) → QuoteIs (length cs) (find_quote skipped cs)
unfolding find_quote
find_quote-QuoteIs true [] = tt
find_quote-QuoteIs false [] = tt
find_quote-QuoteIs true (c ∷ cs) =
    Quoted-cons-QuoteIs (length cs) c true (find_quote false cs) (find_quote-QuoteIs false cs)
find_quote-QuoteIs false (c ∷ cs) = if-both (QuoteIs (suc (length cs))) (c == b'"') (omega arith) (
    Quoted-cons-QuoteIs (length cs) c _ (find_quote (c == b'\\') cs)
      (find_quote-QuoteIs (c == b'\\') cs))

bind-Shortens :
    (n : ℕ) (d : Decoded Bytes) (rest : Bytes)
    → length rest < n
    → Shortens n (d >>= λ (bytes : Bytes). ok (bytes, rest))
bind-Shortens n (ok bytes) rest h = h
bind-Shortens n (err e) rest h = tt

copy_body-Shortens :
    (beyond : Beyond) (n : ℕ) (q : Quoted) → length q.rest < n → Shortens n (copy_body beyond q)
unfolding copy_body
copy_body-Shortens beyond n q h =
    if-both (Shortens n) (q.fast_copy) h
      (bind-Shortens n (unescape beyond (length q.body) (q.body)) (q.rest) h)

quoted-Shortens :
    (beyond : Beyond) (n limit : ℕ) (o : Option Quoted)
    → QuoteIs n o
    → Shortens (suc n) (elim o [
      | none ↦ err ksjson_error_incomplete
      | some q ↦
          if leb limit (length q.body) then err ksjson_error_data_too_long else copy_body beyond q
    ])
quoted-Shortens beyond n limit none h = tt
quoted-Shortens beyond n limit (some q) h =
    if-both (Shortens (suc n)) (leb limit (length q.body)) tt
      (copy_body-Shortens beyond (suc n) q (omega (arith, h)))

pub decode_string-Shortens :
    (beyond : Beyond) (limit c : ℕ) (cs : Bytes)
    → Shortens (suc (length cs)) (decode_string beyond limit (c ∷ cs))
unfolding decode_string
decode_string-Shortens beyond limit c cs =
    if-both (Shortens (suc (length cs))) (c == b'"')
      (quoted-Shortens beyond (length cs) limit (find_quote false cs) (find_quote-QuoteIs false cs))
      tt

-- The loop over the digits reads the first one.
length-scan_digits : (accum : ℕ) (cs : Bytes) → length (scan_digits accum cs).rest ≤ length cs
unfolding scan_digits
length-scan_digits accum [] = omega arith
length-scan_digits accum (c ∷ cs) =
    let Short = λ (d : Digits). length d.rest ≤ suc (length cs) in
    let over : Digits = record { is_overflow = true; accum = accum; rest = c ∷ cs } in
    let over_ten : Digits = record { is_overflow = true; accum = accum * 10; rest = c ∷ cs } in
    let later = scan_digits (accum * 10 + (c - b'0')) cs in
    if-both Short (is_digit c)
      (if-both Short (ltb (uint64_max / 10) accum) {x = over} (omega arith) (
        if-both Short (ltb (uint64_max - (c - b'0')) (accum * 10)) {x = over_ten} {y = later}
          (omega arith) (omega (arith, length-scan_digits (accum * 10 + (c - b'0')) cs))))
      (omega arith)

length-scan_digits_first :
    (c : ℕ) (cs : Bytes) → is_digit c ≡ true → length (scan_digits 0 (c ∷ cs)).rest ≤ length cs
unfolding scan_digits
length-scan_digits_first c cs h =
    rw (h, ltb-eq_false (uint64_max - (c - b'0')) 0 (omega arith))
      (length-scan_digits (0 * 10 + (c - b'0')) cs)

module _ (ops : DoubleOps) (negative : Bool) (limit : ℕ) (start : Bytes) where
  scan_double-Shortens :
      (n : ℕ) (rest : Bytes)
      → length rest < n
      → Shortens n (scan_double ops negative limit start rest)
  unfolding scan_double
  scan_double-Shortens n rest h = go (skip_fp rest) (omega (arith, length-skip_fp rest, h))
    where
      go :
          (r : Bytes)
          → length r < n
          → Shortens n (elim r [
            | [] ↦ err ksjson_error_incomplete
            | c ∷ cs ↦
                let len = length start - length (c ∷ cs) in
                let value = ops.scan (take len start) in
                if leb limit len
                then err ksjson_error_data_too_long
                else ok (floating (if negative then ops.negate value else value), c ∷ cs)
          ])
      go [] h = tt
      go (c ∷ cs) h = if-both (Shortens n) (leb limit (length start - length (c ∷ cs))) tt h

  finish_number-Shortens :
      (n : ℕ) (d : Digits)
      → length d.rest < n
      → Shortens n (finish_number ops negative limit start d)
  unfolding finish_number
  finish_number-Shortens n d h = go (d.rest)
    where
      Fine : Decoded (Number ops.Double × Bytes) → Type 0
      Fine = Shortens n

      as_double : Fine (scan_double ops negative limit start (d.rest))
      as_double = scan_double-Shortens n (d.rest) h

      go :
          (r : Bytes)
          → Fine (elim r [
            | [] ↦ err ksjson_error_incomplete
            | c ∷ cs ↦
                if not (is_fp_char c) && not d.is_overflow
                then (if negative
                    then (if leb d.accum (int64_max + 1)
                        then ok (integer (opposite d.accum), d.rest)
                        else scan_double ops negative limit start d.rest)
                    else if leb d.accum int64_max
                    then ok (integer (pos d.accum), d.rest)
                    else ok (unsigned d.accum, d.rest))
                else scan_double ops negative limit start d.rest
          ])
      go [] = tt
      go (c ∷ cs) =
          if-both Fine (not (is_fp_char c) && not d.is_overflow)
            (if-both Fine negative (if-both Fine (leb d.accum (int64_max + 1)) h as_double)
              (if-both Fine (leb d.accum int64_max) h h))
            as_double

pub decode_unsigned-Shortens :
    (ops : DoubleOps) (negative : Bool) (limit c : ℕ) (cs : Bytes)
    → is_digit c ≡ true
    → Shortens (suc (length cs)) (decode_unsigned ops negative limit (c ∷ cs))
unfolding decode_unsigned
decode_unsigned-Shortens ops negative limit c cs h =
    finish_number-Shortens ops negative limit (c ∷ cs) (suc (length cs)) (scan_digits 0 (c ∷ cs))
      (omega (arith, length-scan_digits_first c cs h))

decode_unsigned_nothing :
    (ops : DoubleOps) (negative : Bool) (limit : ℕ)
    → Shortens 1 (decode_unsigned ops negative limit [])
unfolding decode_unsigned scan_digits
decode_unsigned_nothing ops negative limit =
    finish_number-Shortens ops negative limit [] 1 (scan_digits 0 []) (omega arith)

Shortens-suc : {A : Type 0} (n : ℕ) (d : Decoded (A × Bytes)) → Shortens n d → Shortens (suc n) d
Shortens-suc n (ok (a, rest)) h = omega (arith, h)
Shortens-suc n (err e) h = tt

pub decode_negative-Shortens :
    (ops : DoubleOps) (beyond : Beyond) (limit : ℕ) (cs : Bytes)
    → Shortens (suc (length cs)) (decode_negative ops beyond limit cs)
unfolding decode_negative
decode_negative-Shortens ops beyond limit [] =
    if-both (Shortens 1) (is_digit beyond.past_end) (decode_unsigned_nothing ops true limit) tt
decode_negative-Shortens ops beyond limit (c ∷ cs) = elim (Bool-cases (is_digit c)) [
  | inl digit ↦ rw digit (
      Shortens-suc (suc (length cs)) (decode_unsigned ops true limit (c ∷ cs))
        (decode_unsigned-Shortens ops true limit c cs digit))
  | inr other ↦ rw other tt
]
