-- ===== src/Store/Counts.antt =====
-- How often a number stands in a list, and the comparison of C strings.
use kscrash.Prelude.{
  ℕ, zero, suc, ◌+◌, ◌≤◌, ◌≡◌, refl, sym, subst, Bool-cases, and-true, ap₂, inl, inr, true, List,
  [], ◌∷◌, ◌++◌, Bytes, All, take, drop, arith, ◌==◌, ==_refl, ==_iff, if◌then◌else◌,
}
use kscrash.File.Path.{is_same}

-- How often a number stands in a list.
abbrev pub count : ℕ → List ℕ → ℕ
count x [] = 0
count x (y ∷ ys) = (if x == y then 1 else 0) + count x ys

pub count-append : (x : ℕ) (xs ys : List ℕ) → count x (xs ++ ys) ≡ count x xs + count x ys
count-append x [] ys = omega arith
count-append x (y ∷ xs) ys = omega (arith, count-append x xs ys)

pub count-take-drop :
    (x n : ℕ) (xs : List ℕ) → count x (take n xs) + count x (drop n xs) ≡ count x xs
count-take-drop x zero xs = omega arith
count-take-drop x (suc n) [] = refl
count-take-drop x (suc n) (y ∷ xs) = omega (arith, count-take-drop x n xs)

module _ (P : ℕ → Type 0) where
  pub count-All : (x : ℕ) (xs : List ℕ) → All P xs → 1 ≤ count x xs → P x
  count-All x [] h c = absurd (omega (arith, c))
  count-All x (y ∷ xs) (h, hs) c = elim (Bool-cases (x == y)) [
    | inl same ↦ subst P (sym ((==_iff x y).0 same)) h
    | inr other ↦ count-All x xs hs (ground (arith, c, other))
  ]

  pub All-count : (xs : List ℕ) → ((x : ℕ) → 1 ≤ count x xs → P x) → All P xs
  All-count [] h = tt
  All-count (x ∷ xs) h =
      (h x (ground (arith, ==_refl x)), All-count xs (λ y c. h y (ground (arith, c))))

pub is_same-eq : (a b : Bytes) → is_same a b ≡ true → a ≡ b
is_same-eq [] [] h = refl
is_same-eq (x ∷ a) (y ∷ b) h =
    let (first, rest) = and-true h in
    ap₂ (λ (x : ℕ) (a : Bytes). x ∷ a) ((==_iff x y).0 first) (is_same-eq a b rest)
is_same-eq [] (y ∷ b) h = absurd (ground (arith, h))
is_same-eq (x ∷ a) [] h = absurd (ground (arith, h))

pub is_same_refl : (a : Bytes) → is_same a a ≡ true
is_same_refl [] = refl
is_same_refl (x ∷ a) = rw (==_refl x) (is_same_refl a)

pub is_same-append : (p a b : Bytes) → is_same (p ++ a) (p ++ b) ≡ is_same a b
is_same-append [] a b = refl
is_same-append (x ∷ p) a b = rw (==_refl x) (is_same-append p a b)
