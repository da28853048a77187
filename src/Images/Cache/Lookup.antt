-- ===== src/Images/Cache/Lookup.antt =====
-- What `ksbic_getUnwindInfoForAddress` finds.
use kscrash.Prelude.{
  ltb→lt, ℕ, zero, suc, ◌+◌, ◌≤◌, ◌<◌, ◌≡◌, refl, sym, ap, ◌∙◌, ◌⊎◌, inl, inr, true, false, Option,
  none, some, List, [], ◌∷◌, length, get_elem?, arith, ltb, if-cases, Bool-cases,
}
use kscrash.Compact.Section.Covers.{IsLast, last_at_most-IsLast}
use kscrash.Images.{ImageRange, Loader, linear_scan_for_address}
use kscrash.Images.Cache.{
  max_cache_entries, Cache, start_of, start_at, binary_search_cache, holds, or_back, scan_back,
  scan_from, find_cached, Answer, answered, unwritten, missing, on_miss, on_lookup, uncached,
  get_unwind_info_for_address,
}
use kscrash.Images.Cache.Sorted.{IsSorted, IsValid, start_at_mono, insert_sorted-IsValid}

-- An entry that is cached and is the one of the address.
abbrev pub Holds : List ImageRange → ℕ → ImageRange → Type 0
Holds entries address r = (i : ℕ) × (get_elem? entries i ≡ some r) × (holds r address ≡ true)

abbrev pub NoneHolds : List ImageRange → ℕ → Type 0
NoneHolds entries address =
    (i : ℕ) (r : ImageRange) → get_elem? entries i ≡ some r → holds r address ≡ false

get_elem?-lt :
    (entries : List ImageRange) (i : ℕ) {r : ImageRange}
    → get_elem? entries i ≡ some r
    → i < length entries
get_elem?-lt [] i h = absurd (cc)
get_elem?-lt (e ∷ entries) zero h = omega arith
get_elem?-lt (e ∷ entries) (suc i) h = omega (arith, get_elem?-lt entries i h)

module _ (entries : List ImageRange) (address : ℕ) where
  -- What a scan of the first `count` entries finds.
  abbrev ScanIs : ℕ → Option ImageRange → Type 0
  ScanIs count none =
      (i : ℕ) (r : ImageRange) → i < count → get_elem? entries i ≡ some r → holds r address ≡ false
  ScanIs count (some r) = Holds entries address r

  further :
      (count : ℕ) (here : Option ImageRange)
      → get_elem? entries count ≡ here
      → ((r : ImageRange) → here ≡ some r → holds r address ≡ false)
      → (rest : Option ImageRange) → ScanIs count rest
      → ScanIs (suc count) rest
  further count here at fails (some r) h = h
  further count here at fails none h = λ i r less found. elim (Bool-cases (ltb i count)) [
    | inl before ↦ h i r (ground (arith, before)) found
    | inr same ↦
        let eq : i ≡ count = ground (arith, same, less) in
        fails r (sym at ∙ ap (get_elem? entries) (sym eq) ∙ found)
  ]

  or_back-ScanIs :
      (count : ℕ) (here rest : Option ImageRange)
      → get_elem? entries count ≡ here
      → ScanIs count rest
      → ScanIs (suc count) (or_back address here rest)
  or_back-ScanIs count none rest at h = further count none at (λ r e. absurd (cc e)) rest h
  or_back-ScanIs count (some r) rest at h =
      if-cases (ScanIs (suc count)) (holds r address) (λ held. (count, at, held))
        (λ fails. further count (some r) at (λ s same. cc (same, fails)) rest h)

  scan_back-ScanIs : (count : ℕ) → ScanIs count (scan_back entries address count)
  unfolding scan_back
  scan_back-ScanIs zero = λ i r less found. absurd (omega (arith, less))
  scan_back-ScanIs (suc count) =
      or_back-ScanIs count (get_elem? entries count) (scan_back entries address count) refl
        (scan_back-ScanIs count)

  -- An entry that starts above the address is not the one of it.
  starts_above :
      (i : ℕ) (r : ImageRange)
      → get_elem? entries i ≡ some r
      → address < start_at entries i
      → holds r address ≡ false
  starts_above i r found above =
      let start : start_at entries i ≡ r.start_address = ap start_of found in
      ground (arith, start, above)

  beyond :
      (sorted : IsSorted entries) (place i : ℕ) (r : ImageRange)
      → get_elem? entries i ≡ some r
      → (place ≡ length entries) ⊎ (address < start_at entries place)
      → place ≤ i
      → holds r address ≡ false
  beyond sorted place i r found (inl at_end) le =
      absurd (omega (arith, at_end, le, get_elem?-lt entries i found))
  beyond sorted place i r found (inr above) le =
      starts_above i r found (
        omega
          (arith, above, start_at_mono entries place i sorted le (get_elem?-lt entries i found)))

  abbrev FindIs : Option ImageRange → Type 0
  FindIs none = NoneHolds entries address
  FindIs (some r) = Holds entries address r

  scan_from-FindIs :
      (sorted : IsSorted entries) (o : Option ℕ)
      → IsLast (start_at entries) address (length entries) o
      → FindIs (scan_from entries address o)
  scan_from-FindIs sorted none last =
      λ i r found. beyond sorted 0 i r found (start last) (omega arith)
    where
      start :
          (length entries ≡ 0) ⊎ (address < start_at entries 0)
          → (0 ≡ length entries) ⊎ (address < start_at entries 0)
      start (inl empty) = inl (sym empty)
      start (inr above) = inr above
  scan_from-FindIs sorted (some place) last =
      widen (scan_back entries address (suc place)) (scan_back-ScanIs (suc place))
    where
      next : (place + 1 ≡ length entries) ⊎ (address < start_at entries (place + 1))
      next = last.2

      widen : (o : Option ImageRange) → ScanIs (suc place) o → FindIs o
      widen (some r) h = h
      widen none h = λ i r found. elim (Bool-cases (ltb i (suc place))) [
        | inl low ↦ h i r (ground (arith, low)) found
        | inr high ↦ beyond sorted (place + 1) i r found next (ground (arith, high))
      ]

  find_cached-FindIs : IsSorted entries → FindIs (find_cached entries address)
  unfolding find_cached
  find_cached-FindIs sorted =
      scan_from-FindIs sorted (binary_search_cache entries address)
        (last_at_most-IsLast (start_at entries) address (length entries))

-- The cache is in use, or none of its entries is the one of the address and it has room.
abbrev pub Uncached : Cache → ℕ → Type 0
Uncached c address =
    (c.available ≡ false)
    ⊎ (NoneHolds (c.entries) address × (length (c.entries) < max_cache_entries))

-- The answer about an address, given what a scan of the images of dyld finds. Only where the cache
-- is full is the information not written.
abbrev pub AnswerIs : Cache → ℕ → Option ImageRange → Answer → Type 0
AnswerIs c address scanned (answered info) =
    (r : ImageRange) × (info ≡ r.unwind_info)
    × (((c.available ≡ true) × Holds (c.entries) address r)
        ⊎ (Uncached c address × (scanned ≡ some r)))
AnswerIs c address scanned unwritten =
    (c.available ≡ true)
    × (length (c.entries) ≡ max_cache_entries)
    × NoneHolds (c.entries) address
    × ((r : ImageRange) × (scanned ≡ some r))
AnswerIs c address scanned missing =
    (scanned ≡ none) × ((c.available ≡ false) ⊎ NoneHolds (c.entries) address)

abbrev pub Outcome : Cache → ℕ → Option ImageRange → Answer × Cache → Type 0
Outcome c address scanned (answer, c') = AnswerIs c address scanned answer × IsValid (c'.entries)

module _ (c : Cache) (address : ℕ) (v : IsValid (c.entries)) where
  on_miss-Outcome :
      (scanned : Option ImageRange)
      → c.available ≡ true
      → NoneHolds (c.entries) address
      → Outcome c address scanned (on_miss c scanned)
  on_miss-Outcome none mine fails = ((refl, inr fails), v)
  on_miss-Outcome (some r) mine fails =
      if-cases (Outcome c address (some r)) (ltb (length (c.entries)) max_cache_entries)
        (λ room. (
          (r, refl, inr (inr (fails, ltb→lt (length (c.entries)) max_cache_entries room), refl)),
          insert_sorted-IsValid r (c.entries) v,
        ))
        (λ full. ((mine, ground (arith, full, v.1), fails, (r, refl)), v))

  on_lookup-Outcome :
      (found scanned : Option ImageRange)
      → c.available ≡ true
      → FindIs (c.entries) address found
      → Outcome c address scanned (on_lookup c found scanned)
  on_lookup-Outcome none scanned mine h = on_miss-Outcome scanned mine h
  on_lookup-Outcome (some r) scanned mine h = ((r, refl, inl (mine, h)), v)

  uncached-Outcome :
      (scanned : Option ImageRange)
      → c.available ≡ false
      → Outcome c address scanned (uncached scanned, c)
  uncached-Outcome none busy = ((refl, inl busy), v)
  uncached-Outcome (some r) busy = ((r, refl, inr (inl busy, refl)), v)

  -- An answer of `ksbic_getUnwindInfoForAddress` about a sorted cache is the information of a
  -- cached image that holds the address, if the cache is not in use; of the image that a scan of
  -- dyld's finds only if the cache is in use, or if no cached image holds the address and the
  -- cache has room. It misses only if neither is there. It returns true with nothing written only
  -- where the cache is not in use and is full, no cached image holds the address, and the scan
  -- finds one. The cache stays sorted and within its 2048 entries.
  pub get_unwind_info_for_address-Outcome :
      (loader : Loader)
      → Outcome c address
          (linear_scan_for_address loader address)
          (get_unwind_info_for_address loader address c)
  unfolding get_unwind_info_for_address
  get_unwind_info_for_address-Outcome loader =
      let scanned = linear_scan_for_address loader address in
      if-cases (Outcome c address scanned) (c.available)
        (λ mine.
          on_lookup-Outcome (find_cached (c.entries) address) scanned mine
            (find_cached-FindIs (c.entries) address (v.0)))
        (λ busy. uncached-Outcome scanned busy)
