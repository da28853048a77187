-- ===== src/Compact/Section/Covers.antt =====
-- The function that `kscu_findEntry` gives contains the target.
use kscrash.Prelude.{
  ℕ, zero, suc, ◌+◌, ◌-◌, ◌/◌, ◌≤◌, ◌<◌, ◌≡◌, refl, ◌⊎◌, inl, inr, Option, none, some, arith, ltb,
  leb, if-cases, ltb→lt, leb→le,
}
use kscrash.Compact.Section.{bisect, binary_search, settled, last_at_most}

-- `r` is the last place in front of one whose offset is above the target, or in front of the end.
abbrev pub IsLast : (ℕ → ℕ) → ℕ → ℕ → Option ℕ → Type 0
IsLast offset_at target count none = (count ≡ 0) ⊎ (target < offset_at 0)
IsLast offset_at target count (some r) =
    (r < count) × (offset_at r ≤ target) × ((r + 1 ≡ count) ⊎ (target < offset_at (r + 1)))

module _ (offset_at : ℕ → ℕ) (target count : ℕ) where
  -- What the loop keeps of `left` and of `stop`.
  abbrev LeftIs : ℕ → Option ℕ → Type 0
  LeftIs left none = left ≡ 0
  LeftIs left (some r) = (left ≡ r + 1) × (offset_at r ≤ target)

  abbrev StopIs : ℕ → Type 0
  StopIs stop = (stop ≡ count) ⊎ (target < offset_at stop)

  done-IsLast :
      (left stop : ℕ) (result : Option ℕ)
      → left ≡ stop
      → stop ≤ count
      → LeftIs left result
      → StopIs stop
      → IsLast offset_at target count result
  done-IsLast left stop none same inside l s = grind arith
  done-IsLast left stop (some r) same inside l s = grind arith

  -- The search has come to an end, at such a place.
  abbrev pub EndsAtLast : Option (Option ℕ) → Type 0
  EndsAtLast none = ⊥
  EndsAtLast (some result) = IsLast offset_at target count result

  bisect-EndsAtLast :
      (fuel left stop : ℕ) (result : Option ℕ)
      → left ≤ stop
      → stop ≤ count
      → stop - left ≤ fuel
      → LeftIs left result
      → StopIs stop
      → EndsAtLast (bisect offset_at target fuel left stop result)
  unfolding bisect
  bisect-EndsAtLast zero left stop result order inside enough l s =
      if-cases EndsAtLast (ltb left stop) (λ some_left. absurd (ground (arith, some_left, enough)))
        (λ none_left. done-IsLast left stop result (omega (arith, order, enough)) inside l s)
  bisect-EndsAtLast (suc fuel) left stop result order inside enough l s =
      let mid = left + (stop - 1 - left) / 2 in
      if-cases EndsAtLast (ltb left stop)
        (λ some_left.
          let less = ltb→lt left stop some_left in
          if-cases EndsAtLast (leb (offset_at mid) target)
            (λ low.
              bisect-EndsAtLast fuel (suc mid) stop (some mid) (omega (arith, less)) inside
                (omega (arith, less, enough)) (omega arith, leb→le (offset_at mid) target low) s)
            (λ high.
              bisect-EndsAtLast fuel left mid result (omega arith) (omega (arith, less, inside))
                (omega (arith, less, enough)) l (inr (ground (arith, high)))))
        (λ none_left. done-IsLast left stop result (ground (arith, none_left, order)) inside l s)

  -- The binary search needs no order: whatever the offsets are, it ends at a place whose offset is
  -- not above the target and is followed by one that is, or by the end; and at none only if the
  -- first is above the target.
  pub binary_search-EndsAtLast : EndsAtLast (binary_search offset_at target count)
  binary_search-EndsAtLast =
      bisect-EndsAtLast count 0 count none (omega arith) (omega arith) (omega arith) refl (inl refl)

  settled-IsLast :
      (o : Option (Option ℕ)) → EndsAtLast o → IsLast offset_at target count (settled o)
  settled-IsLast none h = absurd h
  settled-IsLast (some result) h = h

  pub last_at_most-IsLast : IsLast offset_at target count (last_at_most offset_at target count)
  last_at_most-IsLast =
      settled-IsLast (binary_search offset_at target count) binary_search-EndsAtLast
