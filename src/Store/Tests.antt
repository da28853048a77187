-- ===== src/Store/Tests.antt =====
-- A directory with three reports and another file, and a sort for it.
use kscrash.Prelude.{
  ℕ, ◌+◌, ◌-◌, ◌*◌, ◌%◌, ◌≤◌, ◌<◌, ◌≡◌, refl, sym, subst, Bool-cases, inl, inr, true, false, List,
  [], ◌∷◌, Bytes, codes, pos, negsuc, All, length, drop, replicate, length-replicate, arith,
  int64_max, leb→le, ◌==◌, ltb, leb, if◌then◌else◌, if-cases,
}
use kscrash.Store.{
  hex_digits, Configuration, Library, compare_int64, report_id, is_report_id, report_name,
  prune_reports,
}
use kscrash.Store.Ids.{Time, nth_id, initialize_ids, nth_id-increases}
use kscrash.Store.Counts.{count, count-All, All-count}
use kscrash.Store.Deletes.{AreNamed, report_ids}
use kscrash.Store.Prune.{
  NotAfter, IsSorted, compare_int64-le, Sorts, LeavesLast, prune_reports-newest,
}

abbrev insert : ℕ → List ℕ → List ℕ
insert x [] = x ∷ []
insert x (y ∷ ys) = let rest = insert x ys in if leb x y then x ∷ y ∷ ys else y ∷ rest

abbrev sort : List ℕ → List ℕ
sort [] = []
sort (x ∷ xs) = insert x (sort xs)

count-insert : (z x : ℕ) (ys : List ℕ) → count z (insert x ys) ≡ count z (x ∷ ys)
count-insert z x [] = refl
count-insert z x (y ∷ ys) = ground (arith, count-insert z x ys)

count-sort : (z : ℕ) (xs : List ℕ) → count z (sort xs) ≡ count z xs
count-sort z [] = refl
count-sort z (x ∷ xs) = omega (arith, count-insert z x (sort xs), count-sort z xs)

-- The same numbers satisfy the same.
All-same :
    (P : ℕ → Type 0) (xs ys : List ℕ) → ((z : ℕ) → count z xs ≡ count z ys) → All P ys → All P xs
All-same P xs ys same h =
    All-count P xs λ z standing. count-All P z ys h (omega (arith, same z, standing))

NotAfter-le : (a b : ℕ) → a ≤ b → b ≤ int64_max → NotAfter (compare_int64 a b)
unfolding compare_int64
NotAfter-le a b h k = elim (Bool-cases (a == b)) [
  | inl same ↦ subst NotAfter (sym (level same)) tt
  | inr other ↦ subst NotAfter (sym (ahead other)) tt
]
  where
    level : (a == b) ≡ true → compare_int64 a b ≡ pos 0
    level same =
        let diff : (a + (18_446_744_073_709_551_616 - b)) % 18_446_744_073_709_551_616 ≡ 0 =
          ground (arith, same, k) in
        rw diff refl

    ahead : (a == b) ≡ false → compare_int64 a b ≡ negsuc 0
    ahead other =
        let diff : (a + (18_446_744_073_709_551_616 - b)) % 18_446_744_073_709_551_616
            ≡ 18_446_744_073_709_551_616 - (b - a) =
          ground (arith, other, h, k) in
        rw diff (ground (arith, other, h, k))

abbrev Small : ℕ → Type 0
Small x = x ≤ int64_max

insert-IsSorted :
    (x : ℕ) (ys : List ℕ)
    → Small x
    → All Small ys
    → IsSorted compare_int64 ys
    → IsSorted compare_int64 (insert x ys)
insert-IsSorted x [] h hs s = (tt, tt)
insert-IsSorted x (y ∷ ys) h (k, ks) (s, ss) =
    if-cases (IsSorted compare_int64) (leb x y)
      (λ le. (
        (
          NotAfter-le x y (leb→le x y le) k,
          All-count (λ z. NotAfter (compare_int64 x z)) ys (later le),
        ),
        (s, ss),
      ))
      (λ above. (
        All-same (λ z. NotAfter (compare_int64 y z)) (insert x ys) (x ∷ ys)
            (λ z. count-insert z x ys) (NotAfter-le y x (ground (arith, above)) h, s),
        insert-IsSorted x ys h ks ss,
      ))
  where
    later : leb x y ≡ true → (z : ℕ) → 1 ≤ count z ys → NotAfter (compare_int64 x z)
    later le z standing =
        let small = count-All Small z ys ks standing in
        NotAfter-le x z
          (omega (
            arith,
            leb→le x y le,
            compare_int64-le y z k small
                (count-All (λ z. NotAfter (compare_int64 y z)) z ys s standing),
          ))
          small

sort-IsSorted : (xs : List ℕ) → All Small xs → IsSorted compare_int64 (sort xs)
sort-IsSorted [] h = tt
sort-IsSorted (x ∷ xs) (h, hs) =
    insert-IsSorted x (sort xs) h (All-same Small (sort xs) xs (λ z. count-sort z xs) hs)
      (sort-IsSorted xs hs)

-- The value of hexadecimal digits.
abbrev digit : ℕ → ℕ
digit c = if ltb c b'a' then c - b'0' else c - b'a' + 10

abbrev number : ℕ → Bytes → ℕ
number value [] = value
number value (c ∷ cs) = if c == b'.' then value else number (value * 16 + digit c) cs

-- A scan that takes names of the length of a report's name for reports.
abbrev library : Library
library = record {
  scan_report_id = λ app name.
      if length name == length app + 29 then number 0 (drop (length app + 8) name) else 0;
  qsort = λ compare ids. sort ids;
  removes = λ path. true;
}

abbrev config : Configuration
config = record { app_name = codes "App"; reports_path = codes "/reports"; max_report_count = 2 }

abbrev names : List Bytes
names = report_name config 7 ∷ codes "notes.txt" ∷ report_name config 5 ∷ report_name config 9 ∷ []

left_of_four :
    prune_reports library config (λ k. replicate k 0) names
    ≡ report_name config 7 ∷ codes "notes.txt" ∷ report_name config 9 ∷ []
unfolding prune_reports kscrash.Store.count_reports kscrash.Store.hex_digits
    kscrash.Store.delete_first kscrash.Store.get_report_ids kscrash.Store.collect_ids
    kscrash.Store.delete_report_with_id kscrash.Store.remove_file kscrash.Store.unlinked
    kscrash.Store.get_crash_report_path_by_id
left_of_four = refl

library-Sorts : Sorts library config
library-Sorts =
    (λ compare ids x. count-sort x ids, λ ids valid. sort-IsSorted ids (small ids valid))
  where
    small : (ids : List ℕ) → All (λ id. is_report_id library config id ≡ true) ids → All Small ids
    small [] h = tt
    small (x ∷ xs) (h, hs) = (ground (arith, h), small xs hs)

names-AreNamed : AreNamed library config names
unfolding hex_digits
names-AreNamed = (λ h. refl, (λ h. absurd (ground (arith, h)), (λ h. refl, (λ h. refl, tt))))

names-ids : report_ids library config names ≡ 7 ∷ 5 ∷ 9 ∷ []
unfolding hex_digits report_ids
names-ids = refl

names-distinct : (x : ℕ) → count x (report_ids library config names) ≤ 1
names-distinct x = rw names-ids (ground arith)

prune_reports-newest_example :
    let left = prune_reports library config (λ k. replicate k 0) names in
    LeavesLast library config names left
    × ((x y : ℕ)
        → 1 ≤ count x (report_ids library config left)
        → 1 ≤ count y (report_ids library config names)
        → count y (report_ids library config left) ≡ 0
        → y < x)
prune_reports-newest_example =
    prune_reports-newest library config (λ k. replicate k 0) names (λ k. length-replicate k 0)
      (omega arith) names-AreNamed library-Sorts (λ path. refl) names-distinct (omega arith)

-- In the year 2025 a launch of one day and another of the next.
abbrev noon : Time
noon = record { tm_sec = 0; tm_min = 0; tm_hour = 12; tm_yday = 100; tm_year = 125 }

abbrev midnight : Time
midnight = record { tm_sec = 0; tm_min = 0; tm_hour = 0; tm_yday = 101; tm_year = 125 }

nth_id-increases_example : nth_id 1000 (initialize_ids noon) < nth_id 0 (initialize_ids midnight)
nth_id-increases_example =
    (nth_id-increases noon midnight 1000 0
        (omega arith, omega arith, omega arith, omega arith, omega arith)
        (omega arith, omega arith, omega arith, omega arith, omega arith) (omega arith)
        (omega arith)).0
      (inr (refl, inl (omega arith)))
