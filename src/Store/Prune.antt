-- ===== src/Store/Prune.antt =====
-- What `pruneReports` leaves in the directory.
use kscrash.Prelude.{
  ℕ, zero, suc, ◌+◌, ◌-◌, ◌%◌, ◌≤◌, ◌<◌, ◌≡◌, ◌≢◌, refl, sym, ap, ◌∙◌, subst, Bool-cases, inl, inr,
  true, false, List, [], ◌∷◌, Bytes, ℤ, pos, negsuc, All, length, take, drop, arith, ==_iff,
  int64_max, leb→le, ◌==◌, append-nil, ltb, leb, if-cases,
}
use kscrash.Store.{
  Configuration, Library, compare_int64, delete_first, is_report_id, count_reports, get_report_ids,
  prune_names, prune_reports,
}
use kscrash.Store.Counts.{count, count-All, All-count, count-take-drop}
use kscrash.Store.Deletes.{
  report_ids, length-report_ids, collect_ids-all, AreNamed, FitsPath, Removes, IsRead,
  report_ids-AreRead, count-delete_first,
}

-- What a comparison says of two numbers that stand in order.
abbrev pub NotAfter : ℤ → Type 0
NotAfter (pos zero) = Unit
NotAfter (pos (suc n)) = ⊥
NotAfter (negsuc n) = Unit

-- The order that `qsort` leaves.
abbrev pub IsSorted : (ℕ → ℕ → ℤ) → List ℕ → Type 0
IsSorted compare [] = Unit
IsSorted compare (x ∷ xs) = All (λ y. NotAfter (compare x y)) xs × IsSorted compare xs

IsSorted-split :
    (compare : ℕ → ℕ → ℤ) (n : ℕ) (xs : List ℕ) (x y : ℕ)
    → IsSorted compare xs
    → 1 ≤ count y (take n xs)
    → 1 ≤ count x (drop n xs)
    → NotAfter (compare y x)
IsSorted-split compare zero xs x y s front back = absurd (omega (arith, front))
IsSorted-split compare (suc n) [] x y s front back = absurd (omega (arith, front))
IsSorted-split compare (suc n) (z ∷ xs) x y (s, ss) front back = elim (Bool-cases (y == z)) [
  | inl same ↦
      subst (λ w. NotAfter (compare w x)) (sym ((==_iff y z).0 same))
        (count-All (λ w. NotAfter (compare z w)) x xs s
          (omega (arith, count-take-drop x n xs, back)))
  | inr other ↦ IsSorted-split compare n xs x y ss (ground (arith, front, other)) back
]

pub compare_int64-le :
    (a b : ℕ) → a ≤ int64_max → b ≤ int64_max → NotAfter (compare_int64 a b) → a ≤ b
unfolding compare_int64
compare_int64-le a b h k ordered = elim (Bool-cases (leb a b)) [
  | inl le ↦ leb→le a b le
  | inr above ↦ absurd (subst NotAfter (behind above) ordered)
]
  where
    behind : leb a b ≡ false → compare_int64 a b ≡ pos 1
    behind above =
        let diff : (a + (18_446_744_073_709_551_616 - b)) % 18_446_744_073_709_551_616 ≡ a - b =
          ground (arith, above, h, k) in
        rw diff (ground (arith, above, h, k))

module _ (library : Library) (config : Configuration) where
  -- What `qsort` does: it puts the numbers into another order, one in which the comparison says of
  -- none that it comes behind a later one, where it compares report IDs.
  abbrev pub Sorts : Type 0
  Sorts =
      ((compare : ℕ → ℕ → ℤ) (ids : List ℕ) (x : ℕ)
        → count x (library.qsort compare ids) ≡ count x ids)
      × ((ids : List ℕ)
          → All (λ id. is_report_id library config id ≡ true) ids
          → IsSorted compare_int64 (library.qsort compare_int64 ids))

  abbrev sorted_ids : List Bytes → List ℕ
  sorted_ids names = library.qsort compare_int64 (report_ids library config names)

  abbrev excess : List Bytes → ℕ
  excess names = count_reports library config names - config.max_report_count

  -- The IDs that are sorted are those of the reports.
  prune_names-sorted :
      (array : List ℕ) (names : List Bytes)
      → length array ≡ count_reports library config names
      → prune_names library config array names
        ≡ delete_first library config (excess names) (sorted_ids names) names
  unfolding get_report_ids
  prune_names-sorted array names h =
      let all = collect_ids-all library config (length array) names (omega (arith, h)) in
      let same = length-report_ids library config names in
      rw (all, same, sym h, drop_all array, append-nil (report_ids library config names)) refl
    where
      drop_all : (xs : List ℕ) → drop (length xs) xs ≡ []
      drop_all [] = refl
      drop_all (x ∷ xs) = drop_all xs

  -- The IDs in `left` are those behind the excess.
  abbrev pub LeavesLast : List Bytes → List Bytes → Type 0
  LeavesLast names left =
      (x : ℕ)
      → count x (report_ids library config left) ≡ count x (drop (excess names) (sorted_ids names))

  module _ (names : List Bytes) (fits : FitsPath library config)
      (named : AreNamed library config names) (sorts : Sorts)
      (removes : Removes library config) where
    sorted_ids-AreRead : All (IsRead library config) (sorted_ids names)
    sorted_ids-AreRead = All-count (IsRead library config) (sorted_ids names) λ x standing.
        count-All (IsRead library config) x (report_ids library config names)
          (report_ids-AreRead library config names named)
          (omega (arith, sorts.0 compare_int64 (report_ids library config names) x, standing))

    prune_reports-LeavesLast :
        (array : ℕ → List ℕ)
        → ((k : ℕ) → length (array k) ≡ k)
        → ((x : ℕ) → count x (report_ids library config names) ≤ 1)
        → 1 ≤ config.max_report_count
        → LeavesLast names (prune_reports library config array names)
    unfolding prune_reports
    prune_reports-LeavesLast array sized distinct limit =
        if-cases (LeavesLast names) (config.max_report_count == 0)
          (λ none. absurd (ground (arith, none, limit)))
          (λ some.
            if-cases (LeavesLast names)
              (ltb (config.max_report_count) (count_reports library config names))
              (λ more x.
                ap (λ left. count x (report_ids library config left))
                  (prune_names-sorted (array (count_reports library config names)) names
                    (sized (count_reports library config names)))
                ∙ count-delete_first library config removes x (excess names) (sorted_ids names)
                    names fits named sorted_ids-AreRead
                ∙ ground (
                  arith,
                  count-take-drop x (excess names) (sorted_ids names),
                  sorts.0 compare_int64 (report_ids library config names) x,
                  distinct x,
                ))
              (λ few x.
                sym (sorts.0 compare_int64 (report_ids library config names) x)
                ∙ ap (λ n. count x (drop n (sorted_ids names))) (no_excess few)))
      where
        no_excess :
            ltb (config.max_report_count) (count_reports library config names) ≡ false
            → 0 ≡ excess names
        no_excess few = ground (arith, few)

    LeavesLast-newest :
        (left : List Bytes)
        → LeavesLast names left
        → (x y : ℕ) → 1 ≤ count x (report_ids library config left)
        → 1 ≤ count y (report_ids library config names)
        → count y (report_ids library config left) ≡ 0
        → y < x
    LeavesLast-newest left last x y stays was gone = omega (arith, not_after, distinct_ids)
      where
        sorted :
            (z : ℕ)
            → count z (take (excess names) (sorted_ids names))
                + count z (drop (excess names) (sorted_ids names))
              ≡ count z (report_ids library config names)
        sorted z =
            count-take-drop z (excess names) (sorted_ids names)
            ∙ sorts.0 compare_int64 (report_ids library config names) z

        IsValid : ℕ → Type 0
        IsValid z = is_report_id library config z ≡ true

        valid : All IsValid (report_ids library config names)
        valid = All-count IsValid (report_ids library config names) λ z standing.
            (count-All (IsRead library config) z (report_ids library config names)
              (report_ids-AreRead library config names named) standing).1

        small : (z : ℕ) → 1 ≤ count z (report_ids library config names) → z ≤ int64_max
        small z standing =
            ground (arith, count-All IsValid z (report_ids library config names) valid standing)

        not_after : y ≤ x
        not_after =
            compare_int64-le y x (small y was) (small x (omega (arith, sorted x, last x, stays))) (
              IsSorted-split compare_int64 (excess names) (sorted_ids names) x y
                (sorts.1 (report_ids library config names) valid)
                (omega (arith, sorted y, last y, was, gone)) (omega (arith, last x, stays)))

        distinct_ids : y ≢ x
        distinct_ids same =
            absurd
              (omega (arith, stays, gone, ap (λ z. count z (report_ids library config left)) same))

  -- `pruneReports` with a limit leaves the IDs that stand last among the sorted ones, as many as
  -- the limit says, or all where they are no more; and every report that it leaves is newer than
  -- every report that it deletes. It supposes that `qsort` sorts, that every call of `remove`
  -- succeeds, that no two reports of the directory have the same ID, that they have the names that
  -- the store gives them, and that these fit the buffer for paths. What the array of IDs holds
  -- before they are read does not matter.
  pub prune_reports-newest :
      (array : ℕ → List ℕ) (names : List Bytes)
      → ((k : ℕ) → length (array k) ≡ k)
      → FitsPath library config
      → AreNamed library config names
      → Sorts
      → Removes library config
      → ((x : ℕ) → count x (report_ids library config names) ≤ 1)
      → 1 ≤ config.max_report_count
      → let left = prune_reports library config array names in
        LeavesLast names left
        × ((x y : ℕ)
            → 1 ≤ count x (report_ids library config left)
            → 1 ≤ count y (report_ids library config names)
            → count y (report_ids library config left) ≡ 0
            → y < x)
  prune_reports-newest array names sized fits named sorts removes distinct limit =
      let last =
        prune_reports-LeavesLast names fits named sorts removes array sized distinct limit in
      (
        last,
        LeavesLast-newest names fits named sorts removes (prune_reports library config array names)
            last,
      )
