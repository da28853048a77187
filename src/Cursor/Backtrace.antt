-- ===== src/Cursor/Backtrace.antt =====
-- KSStackCursor_Backtrace.c: the cursor over an array of addresses. `normalise` is
-- `kscpu_normaliseInstructionPointer`, which strips what the processor has added.
use kscrash.Prelude.{
  ℕ, zero, suc, ◌+◌, ◌-◌, ◌≤◌, ◌≡◌, refl, sym, ap, ◌∙◌, Option, none, some, List, [], ◌∷◌, length,
  length-drop, get_or, drop, arith, ltb, if◌then◌else◌, Bool-cases, inl, inr, lt→ltb, ltb-eq_false,
}
use kscrash.Cursor.Stack.{StackCursor, reset_cursor, move_to}

pub record Backtrace : Type 0 where
  pub skipped_entries : ℕ
  pub addresses : List ℕ

module _ (normalise : ℕ → ℕ) (b : Backtrace) where
  -- `advanceCursor`. `none` stands for false, which changes nothing.
  unfoldable pub advance_cursor : StackCursor → Option StackCursor
  advance_cursor c =
      let end_depth = length (b.addresses) - b.skipped_entries in
      let next_address = get_or (b.addresses) (c.current_depth + b.skipped_entries) 0 in
      if ltb (c.current_depth) end_depth
      then (if ltb 1 next_address then some (move_to (normalise next_address) c) else none)
      else none

  abbrev pub on_advance : Option StackCursor → (StackCursor → List ℕ) → List ℕ
  on_advance none next = []
  on_advance (some c) next = c.stack_entry.address ∷ next c

  -- The addresses that a caller sees who advances the cursor until it stops.
  unfoldable pub walk : ℕ → StackCursor → List ℕ
  walk zero c = []
  walk (suc fuel) c = let rest = walk fuel in on_advance (advance_cursor c) rest

  -- The addresses in front of the first that is 0 or 1.
  unfoldable pub before_end : List ℕ → List ℕ
  before_end [] = []
  before_end (a ∷ later) = let rest = before_end later in if ltb 1 a then normalise a ∷ rest else []

  get_or-drop :
      (n : ℕ) (xs : List ℕ) (a : ℕ) (later : List ℕ) → drop n xs ≡ a ∷ later → get_or xs n 0 ≡ a
  get_or-drop zero [] a later h = absurd (cc)
  get_or-drop zero (x ∷ xs) a later h = cc
  get_or-drop (suc n) [] a later h = absurd (cc)
  get_or-drop (suc n) (x ∷ xs) a later h = get_or-drop n xs a later h

  drop-suc :
      (n : ℕ) (xs : List ℕ) (a : ℕ) (later : List ℕ)
      → drop n xs ≡ a ∷ later
      → drop (suc n) xs ≡ later
  drop-suc zero [] a later h = absurd (cc)
  drop-suc zero (x ∷ xs) a later h = cc
  drop-suc (suc n) [] a later h = absurd (cc)
  drop-suc (suc n) (x ∷ xs) a later h = drop-suc n xs a later h

  walk-before_end :
      (fuel : ℕ) (c : StackCursor) (left : List ℕ)
      → drop (c.current_depth + b.skipped_entries) (b.addresses) ≡ left
      → length left ≤ fuel
      → walk fuel c ≡ before_end left
  unfolding walk advance_cursor before_end
  walk-before_end zero c [] at enough = refl
  walk-before_end zero c (a ∷ later) at enough = absurd (omega arith)
  walk-before_end (suc fuel) c [] at enough =
      let past : length (b.addresses) - (c.current_depth + b.skipped_entries) ≡ 0 =
        sym (length-drop (c.current_depth + b.skipped_entries) (b.addresses)) ∙ ap length at in
      rw (
        ltb-eq_false (c.current_depth) (length (b.addresses) - b.skipped_entries)
          (omega (arith, past)))
  walk-before_end (suc fuel) c (a ∷ later) at enough =
      let n = c.current_depth + b.skipped_entries in
      let more : length (b.addresses) - n ≡ suc (length later) =
        sym (length-drop n (b.addresses)) ∙ ap length at in
      let here = get_or-drop n (b.addresses) a later at in
      let next = drop-suc n (b.addresses) a later at in
      let same : c.current_depth + 1 + b.skipped_entries ≡ suc n = omega arith in
      rw (lt→ltb (c.current_depth) (length (b.addresses) - b.skipped_entries) (omega (arith, more)))
        (rw here (elim (Bool-cases (ltb 1 a)) [
          | inl real ↦ rw real (
              ap (◌∷◌ (normalise a)) (
                walk-before_end fuel (move_to (normalise a) c) later
                  (ap (λ k. drop k (b.addresses)) same ∙ next) (omega arith)))
          | inr stop ↦ rw stop
        ]))

  -- A caller who advances a fresh cursor sees the addresses of the backtrace behind the entries to
  -- skip, normalised, up to the end or to the first that is 0 or 1, and no more.
  pub walk-reset_cursor :
      (fuel : ℕ)
      → length (b.addresses) ≤ fuel
      → walk fuel reset_cursor ≡ before_end (drop (b.skipped_entries) (b.addresses))
  walk-reset_cursor fuel enough =
      walk-before_end fuel reset_cursor (drop (b.skipped_entries) (b.addresses))
        (ap (λ k. drop k (b.addresses)) (omega arith))
        (omega (arith, enough, length-drop (b.skipped_entries) (b.addresses)))
