-- ===== src/Strings/Hex/Extract.antt =====
-- The number that is found is the one behind the first mark.
use kscrash.Prelude.{
  ℕ, zero, suc, ◌+◌, ◌-◌, ◌*◌, ◌≤◌, ◌<◌, ◌≡◌, refl, ap, ◌∙◌, Bool, true, false, ◌&&◌, some, List,
  [], ◌∷◌, ◌++◌, Bytes, All, length, length-append, arith, ◌==◌, ltb, if◌then◌else◌,
}
use kscrash.Dwarf.Reader.{wrap, word_mod}
use kscrash.Strings.Hex.{
  invalid, hex_conversion, behind_mark, accumulate, search, extract_hex_value,
}

-- A digit, with letters of one of the cases.
abbrev pub digit : Bool → ℕ → ℕ
digit upper d = if ltb d 10 then b'0' + d else (if upper then b'A' else b'a') + (d - 10)

abbrev pub digits : Bool → List ℕ → Bytes
digits upper [] = []
digits upper (d ∷ ds) = digit upper d ∷ digits upper ds

-- The value of digits, from a value on.
abbrev pub value : ℕ → List ℕ → ℕ
value n [] = n
value n (d ∷ ds) = value (n * 16 + d) ds

-- A front in which no mark begins, whatever follows it but an `x`, and no NUL stands.
abbrev pub HasNoMark : Bytes → Type 0
HasNoMark [] = Unit
HasNoMark (c ∷ []) = (c == 0) ≡ false
HasNoMark (c ∷ d ∷ bytes) =
    ((c == 0) ≡ false) × ((c == b'0' && d == b'x') ≡ false) × HasNoMark (d ∷ bytes)

-- What stands behind the digits ends them.
abbrev pub Ends : Bytes → Type 0
Ends [] = Unit
Ends (c ∷ bytes) = hex_conversion c ≡ invalid

behind_mark-HasNoMark :
    (front rest : Bytes) → HasNoMark front → behind_mark (front ++ (b'0' ∷ b'x' ∷ rest)) ≡ some rest
unfolding behind_mark
behind_mark-HasNoMark [] rest h = refl
behind_mark-HasNoMark (c ∷ []) rest h = ground (arith, h)
behind_mark-HasNoMark (c ∷ d ∷ bytes) rest (no_nul, no_mark, hs) =
    rw (no_nul, no_mark) (behind_mark-HasNoMark (d ∷ bytes) rest hs)

hex_conversion-digit : (upper : Bool) (d : ℕ) → d < 16 → hex_conversion (digit upper d) ≡ d
unfolding hex_conversion
hex_conversion-digit true d h = ground (arith, h)
hex_conversion-digit false d h = ground (arith, h)

value-le : (n : ℕ) (ds : List ℕ) → n ≤ value n ds
value-le n [] = omega arith
value-le n (d ∷ ds) = omega (arith, value-le (n * 16 + d) ds)

accumulate-value :
    (upper : Bool) (n : ℕ) (ds : List ℕ) (rest : Bytes)
    → All (λ d. d < 16) ds
    → value n ds < word_mod
    → Ends rest
    → accumulate n (digits upper ds ++ rest) ≡ value n ds
unfolding accumulate
accumulate-value upper n [] [] h small ends = refl
accumulate-value upper n [] (c ∷ rest) h small ends = rw ends refl
accumulate-value upper n (d ∷ ds) rest (h, hs) small ends =
    let is_digit : (d == invalid) ≡ false = ground (arith, h) in
    let sum : wrap (wrap (n * 16) + d) ≡ n * 16 + d =
      omega (arith, small, value-le (n * 16 + d) ds) in
    rw (hex_conversion-digit upper d h, is_digit, sum)
      (accumulate-value upper (n * 16 + d) ds rest hs small ends)

module _ (past_end : ℕ) where
  search-digit :
      (fuel : ℕ) (string bytes : Bytes) (c : ℕ)
      → 1 ≤ fuel
      → behind_mark string ≡ some (c ∷ bytes)
      → (hex_conversion c == invalid) ≡ false
      → search past_end fuel string ≡ some (accumulate 0 (c ∷ bytes))
  unfolding search
  search-digit zero string bytes c enough mark valid = absurd (omega (arith, enough))
  search-digit (suc fuel) string bytes c enough mark valid = rw (mark, valid) refl

  -- Digits behind a mark, in letters of either case, whose value has 64 bits at most, are found by
  -- `ksstring_extractHexValue`, if no earlier mark and no NUL stands in front of them, and what
  -- stands behind them is no digit.
  pub extract_hex_value-digits :
      (upper : Bool) (front : Bytes) (d : ℕ) (ds : List ℕ) (rest : Bytes)
      → HasNoMark front
      → All (λ d. d < 16) (d ∷ ds)
      → value 0 (d ∷ ds) < word_mod
      → Ends rest
      → extract_hex_value past_end (front ++ (b'0' ∷ b'x' ∷ (digits upper (d ∷ ds) ++ rest)))
        ≡ some (value 0 (d ∷ ds))
  unfolding extract_hex_value
  extract_hex_value-digits upper front d ds rest clear (h, hs) small ends =
      let tail = digits upper ds ++ rest in
      let valid : (hex_conversion (digit upper d) == invalid) ≡ false =
        ground (arith, hex_conversion-digit upper d h, h) in
      search-digit (length (front ++ (b'0' ∷ b'x' ∷ digit upper d ∷ tail)))
        (front ++ (b'0' ∷ b'x' ∷ digit upper d ∷ tail)) tail (digit upper d)
        (omega (arith, length-append front (b'0' ∷ b'x' ∷ digit upper d ∷ tail)))
        (behind_mark-HasNoMark front (digit upper d ∷ tail) clear) valid
      ∙ ap some (accumulate-value upper 0 (d ∷ ds) rest (h, hs) small ends)
