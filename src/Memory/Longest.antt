-- ===== src/Memory/Longest.antt =====
-- `copyMaxPossible` finds the longest readable run.
use kscrash.Prelude.{
  ℕ, zero, suc, ◌+◌, ◌-◌, ◌/◌, ◌≤◌, ◌<◌, ◌≡◌, refl, sym, ap, ◌∙◌, ◌⊎◌, inl, inr, Bool, true, false,
  not, Option, some, arith, ◌==◌, ltb, leb, if◌then◌else◌, uint64_max, Bool-cases, subst, ==_iff,
  ltb→lt, leb→le, if-cases,
}
use kscrash.Memory.{copy_max_loop, copy_max_possible}

pub ltb-false : (a b : ℕ) → ltb a b ≡ false → b ≤ a
ltb-false a b h = ground arith

module _ (readable : ℕ → Bool) where
  -- How many of the `n` bytes from `p` on can be read before the first that cannot.
  unfoldable pub run : ℕ → ℕ → ℕ
  run zero p = 0
  run (suc n) p = let more = run n (suc p) in if readable p then suc more else 0

  pub run-le : (n p : ℕ) → run n p ≤ n
  unfolding run
  run-le zero p = omega arith
  run-le (suc n) p = ground (arith, run-le n (suc p))

  pub run_none : (p : ℕ) → run 0 p ≡ 0
  unfolding run
  run_none p = refl

  run_one : (p : ℕ) → run 1 p ≡ (if readable p then 1 else 0)
  unfolding run
  run_one p = refl

  run_blocked : (n p : ℕ) → readable p ≡ false → run n p ≡ 0
  unfolding run
  run_blocked zero p h = refl
  run_blocked (suc n) p h = rw h refl

  -- Past a part that can be read the run goes on.
  run-add : (a b n p : ℕ) → n ≡ a + b → run a p ≡ a → run n p ≡ a + run b (p + a)
  unfolding run
  run-add zero b n p e h = omega (arith, ap (λ k. run k p) same, ap (run b) here)
    where
      same : n ≡ b
      same = omega (arith, e)

      here : p ≡ p + 0
      here = omega arith
  run-add (suc a) b zero p e h = absurd (omega (arith, e))
  run-add (suc a) b (suc n) p e h = elim (Bool-cases (readable p)) [
    | inl on ↦
        let more : run a (suc p) ≡ a = ground (arith, on, h) in
        let ih = run-add a b n (suc p) (omega (arith, e)) more in
        let next : suc p + a ≡ p + suc a = omega arith in rw on (omega (arith, ih, ap (run b) next))
    | inr off ↦ absurd (ground (arith, off, h))
  ]

  -- It does not go past a byte that cannot be read.
  pub run_short : (a b n p : ℕ) → n ≡ a + b → run a p < a → run n p ≡ run a p
  unfolding run
  run_short zero b n p e h = absurd (omega (arith, h))
  run_short (suc a) b zero p e h = absurd (omega (arith, e))
  run_short (suc a) b (suc n) p e h = elim (Bool-cases (readable p)) [
    | inl on ↦
        let more : run a (suc p) < a = ground (arith, on, h) in
        rw on (ap suc (run_short a b n (suc p) (omega (arith, e)) more))
    | inr off ↦ rw off refl
  ]

  module _ (copy_safely : ℕ → ℕ → ℕ) where
    -- The kernel copies all of the bytes, or reports fewer where one of them cannot be read.
    abbrev pub Documented : Type 0
    Documented = (p n : ℕ) → (copy_safely p n == n) ≡ (run n p == n)

    loop_lem :
        (kernel : Documented) (fuel p last end_ copied d : ℕ)
        → last ≡ p + d
        → end_ ≡ p + d / 2
        → d < fuel
        → (d ≡ 0) ⊎ (run d p < d)
        → copy_max_loop copy_safely fuel p last end_ copied ≡ some (copied + run d p)
    unfolding copy_max_loop
    loop_lem kernel zero p last end_ copied d l e f bad = absurd (omega (arith, f))
    loop_lem kernel (suc fuel) p last end_ copied d l e f bad =
        if-cases Fine (ltb p end_)
          (λ some_left.
            let len_is : end_ - p ≡ d / 2 = omega (arith, e) in
            let large : 1 ≤ d / 2 = omega (arith, e, ltb→lt p end_ some_left) in
            if-cases Fine (copy_safely p (end_ - p) == (end_ - p))
              (λ all_copied.
                let full = filled (end_ - p) len_is (sym (kernel p (end_ - p)) ∙ all_copied) in
                let split = run-add (d / 2) (d - d / 2) d p (omega arith) full in
                let there = ap (run (d - d / 2)) e in
                loop_lem kernel fuel end_ last (end_ + (last - end_) / 2) (copied + (end_ - p))
                  (d - d / 2) (omega (arith, l, e)) (omega (arith, l, e)) (omega (arith, f, large))
                  (still (omega (arith, split, there)) bad)
                ∙ ap some (omega (arith, split, there, e)))
              (λ failed.
                let short = part (end_ - p) len_is (sym (kernel p (end_ - p)) ∙ failed) in
                let same = run_short (d / 2) (d - d / 2) d p (omega arith) short in
                if-cases Fine (leb (end_ - p) 1)
                  (λ single.
                    ap some (omega (arith, same, short, len_is, leb→le (end_ - p) 1 single)))
                  (λ longer.
                    loop_lem kernel fuel p end_ (p + (end_ - p) / 2) copied (d / 2) e
                      (ap (λ k. p + k / 2) len_is) (omega (arith, f, large)) (inr short)
                    ∙ ap some (omega (arith, same)))))
          (λ none_left. ap some (nothing (omega (arith, e, ltb-false p end_ none_left)) bad))
      where
        Fine : Option ℕ → Type 0
        Fine r = r ≡ some (copied + run d p)

        part : (len : ℕ) → len ≡ d / 2 → (run len p == len) ≡ false → run (d / 2) p < d / 2
        part len same h =
            let below = run-le len p in
            let strict : run len p < len = ground (arith, h, below) in
            subst (λ k. run k p < k) same strict

        filled : (len : ℕ) → len ≡ d / 2 → (run len p == len) ≡ true → run (d / 2) p ≡ d / 2
        filled len same h = subst (λ k. run k p ≡ k) same ((==_iff (run len p) len).0 h)

        still :
            run d p ≡ d / 2 + run (d - d / 2) end_
            → (d ≡ 0) ⊎ (run d p < d)
            → (d - d / 2 ≡ 0) ⊎ (run (d - d / 2) end_ < d - d / 2)
        still split (inl none_at_all) = inl (omega (arith, none_at_all))
        still split (inr short) = inr (omega (arith, split, short))

        nothing : d / 2 ≡ 0 → (d ≡ 0) ⊎ (run d p < d) → copied ≡ copied + run d p
        nothing small (inl none_at_all) = omega (arith, ap (λ k. run k p) none_at_all, run_none p)
        nothing small (inr short) = omega (arith, small, short)

    -- The first round asks for everything.
    first_round :
        (kernel : Documented) (fuel p n : ℕ)
        → n < fuel
        → 1 ≤ n
        → copy_max_loop copy_safely (suc fuel) p (p + n) (p + n) 0 ≡ some (run n p)
    unfolding copy_max_loop
    first_round kernel fuel p n f some_wanted =
        if-cases Fine (ltb p (p + n))
          (λ some_left.
            if-cases Fine (copy_safely p (p + n - p) == (p + n - p))
              (λ all_copied.
                let full =
                  filled (p + n - p) (omega arith) (sym (kernel p (p + n - p)) ∙ all_copied) in
                loop_lem kernel fuel (p + n) (p + n) (p + n + (p + n - (p + n)) / 2)
                  (0 + (p + n - p)) 0 (omega arith) (omega arith) (omega (arith, f)) (inl refl)
                ∙ ap some (omega (arith, full, run_none (p + n))))
              (λ failed.
                let short = part (p + n - p) (omega arith) (sym (kernel p (p + n - p)) ∙ failed) in
                if-cases Fine (leb (p + n - p) 1)
                  (λ single. ap some (omega (arith, short, leb→le (p + n - p) 1 single)))
                  (λ longer.
                    loop_lem kernel fuel p (p + n) (p + (p + n - p) / 2) 0 n refl (omega arith)
                      (omega (arith, f)) (inr short)
                    ∙ ap some (omega arith))))
          (λ none_left. absurd (omega (arith, ltb-false p (p + n) none_left, some_wanted)))
      where
        Fine : Option ℕ → Type 0
        Fine r = r ≡ some (run n p)

        part : (len : ℕ) → len ≡ n → (run len p == len) ≡ false → run n p < n
        part len same h =
            let below = run-le len p in
            let strict : run len p < len = ground (arith, h, below) in
            subst (λ k. run k p < k) same strict

        filled : (len : ℕ) → len ≡ n → (run len p == len) ≡ true → run n p ≡ n
        filled len same h = subst (λ k. run k p ≡ k) same ((==_iff (run len p) len).0 h)

    -- `copyMaxPossible` ends, and copies exactly the bytes in front of the first that cannot be
    -- read, where the kernel copies all of a run of bytes or reports fewer. The bytes stand in
    -- front of the end of the address space.
    pub copy_max_possible-run :
        (kernel : Documented) (src byte_count : ℕ)
        → src + byte_count ≤ uint64_max
        → copy_max_possible copy_safely src byte_count ≡ some (run byte_count src)
    unfolding copy_max_possible
    copy_max_possible-run kernel src n fits =
        if-cases Fine (not (copy_safely src 1 == 1))
          (λ refused. ap some (sym (run_blocked n src (blocked refused))))
          (λ granted.
            if-cases Fine (leb n 1) (λ few. ap some (sym (short n granted few)))
              (λ many.
                if-cases Fine (ltb (uint64_max - src) n)
                  (λ large. absurd (ground (arith, large, fits)))
                  (λ small. first_round kernel (suc n) src n (omega arith) (ground (arith, many)))))
      where
        Fine : Option ℕ → Type 0
        Fine r = r ≡ some (run n src)

        blocked : not (copy_safely src 1 == 1) ≡ true → readable src ≡ false
        blocked h = ground (arith, h, kernel src 1, run_one src)

        short : (n : ℕ) → not (copy_safely src 1 == 1) ≡ false → leb n 1 ≡ true → run n src ≡ n
        short zero g h = run_none src
        short (suc zero) g h = ground (arith, g, kernel src 1, run_one src)
        short (suc (suc n)) g h = absurd (ground (arith, h))
