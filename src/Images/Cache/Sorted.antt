-- ===== src/Images/Cache/Sorted.antt =====
-- The cache stays sorted by the starts of its entries.
use kscrash.Prelude.{
  ℕ, zero, suc, ◌+◌, ◌-◌, ◌/◌, ◌≤◌, ◌<◌, ◌≡◌, refl, ap, ◌⊎◌, inl, inr, Option, none, some, List, [],
  ◌∷◌, length, All, arith, ltb, leb, if-cases, if-both, ltb→lt,
}
use kscrash.Images.{ImageRange, Loader, populate_cache_entry}
use kscrash.Images.Cache.{
  max_cache_entries, start_at, insertion_point, insert_at, insert_sorted, find_by_header,
  add_unknown, add_image, add_images,
}

abbrev pub IsSorted : List ImageRange → Type 0
IsSorted [] = Unit
IsSorted (r ∷ entries) =
    All (λ (s : ImageRange). r.start_address ≤ s.start_address) entries × IsSorted entries

-- The entries of a cache in order.
abbrev pub IsValid : List ImageRange → Type 0
IsValid entries = IsSorted entries × (length entries ≤ max_cache_entries)

abbrev AtLeast : ℕ → ImageRange → Type 0
AtLeast low r = low ≤ r.start_address

All-at :
    (low : ℕ) (entries : List ImageRange) (j : ℕ)
    → All (AtLeast low) entries
    → j < length entries
    → low ≤ start_at entries j
All-at low [] j h inside = absurd (omega (arith, inside))
All-at low (r ∷ entries) zero h inside = h.0
All-at low (r ∷ entries) (suc j) h inside = All-at low entries j (h.1) (omega (arith, inside))

All-of_at :
    (low : ℕ) (entries : List ImageRange)
    → ((j : ℕ) → j < length entries → low ≤ start_at entries j)
    → All (AtLeast low) entries
All-of_at low [] h = tt
All-of_at low (r ∷ entries) h =
    (h 0 (omega arith), All-of_at low entries (λ j inside. h (suc j) (omega (arith, inside))))

pub start_at_mono :
    (entries : List ImageRange) (i j : ℕ)
    → IsSorted entries
    → i ≤ j
    → j < length entries
    → start_at entries i ≤ start_at entries j
start_at_mono [] i j h le inside = absurd (omega (arith, inside))
start_at_mono (r ∷ entries) zero zero h le inside = omega arith
start_at_mono (r ∷ entries) zero (suc j) h le inside =
    All-at (r.start_address) entries j (h.0) (omega (arith, inside))
start_at_mono (r ∷ entries) (suc i) zero h le inside = absurd (omega (arith, le))
start_at_mono (r ∷ entries) (suc i) (suc j) h le inside =
    start_at_mono entries i j (h.1) (omega (arith, le)) (omega (arith, inside))

-- The place of the search is behind a start that is below, and in front of one that is not.
abbrev IsPlace : (ℕ → ℕ) → ℕ → ℕ → ℕ → Type 0
IsPlace offset_at start count place =
    (place ≤ count)
    × ((place ≡ 0) ⊎ (offset_at (place - 1) < start))
    × ((place ≡ count) ⊎ (start ≤ offset_at place))

module _ (offset_at : ℕ → ℕ) (start count : ℕ) where
  insertion_point-IsPlace :
      (fuel left right : ℕ)
      → left ≤ right
      → right ≤ count
      → right - left ≤ fuel
      → (left ≡ 0) ⊎ (offset_at (left - 1) < start)
      → (right ≡ count) ⊎ (start ≤ offset_at right)
      → IsPlace offset_at start count (insertion_point offset_at start fuel left right)
  unfolding insertion_point
  insertion_point-IsPlace zero left right order inside enough l r =
      let same : left ≡ right = omega (arith, order, enough) in
      (omega (arith, order, inside), l, ground (arith, r, same))
  insertion_point-IsPlace (suc fuel) left right order inside enough l r =
      let mid = left + (right - left) / 2 in
      if-cases (IsPlace offset_at start count) (ltb left right)
        (λ some_left.
          let less = ltb→lt left right some_left in
          if-cases (IsPlace offset_at start count) (ltb (offset_at mid) start)
            (λ low.
              let back : suc mid - 1 ≡ mid = omega arith in
              insertion_point-IsPlace fuel (suc mid) right (omega (arith, less)) inside
                (omega (arith, less, enough)) (inr (ground (arith, low, ap offset_at back))) r)
            (λ high.
              insertion_point-IsPlace fuel left mid (omega arith) (omega (arith, less, inside))
                (omega (arith, less, enough)) l (inr (ground (arith, high)))))
        (λ none_left.
          let same : left ≡ right = ground (arith, none_left, order) in
          (omega (arith, order, inside), l, ground (arith, r, same)))

All-insert_at :
    (low i : ℕ) (entry : ImageRange) (entries : List ImageRange)
    → low ≤ entry.start_address
    → All (AtLeast low) entries
    → All (AtLeast low) (insert_at i entry entries)
unfolding insert_at
All-insert_at low zero entry entries le h = (le, h)
All-insert_at low (suc i) entry [] le h = (le, tt)
All-insert_at low (suc i) entry (e ∷ entries) le h =
    (h.0, All-insert_at low i entry entries le (h.1))

insert_at-IsSorted :
    (i : ℕ) (entry : ImageRange) (entries : List ImageRange)
    → IsSorted entries
    → ((j : ℕ) → j < i → j < length entries → start_at entries j ≤ entry.start_address)
    → ((j : ℕ) → i ≤ j → j < length entries → entry.start_address ≤ start_at entries j)
    → IsSorted (insert_at i entry entries)
unfolding insert_at
insert_at-IsSorted zero entry entries sorted before behind =
    (All-of_at (entry.start_address) entries (λ j inside. behind j (omega arith) inside), sorted)
insert_at-IsSorted (suc i) entry [] sorted before behind = (tt, tt)
insert_at-IsSorted (suc i) entry (e ∷ entries) sorted before behind = (
  All-insert_at (e.start_address) i entry entries (before 0 (omega arith) (omega arith)) (sorted.0),
  insert_at-IsSorted i entry entries (sorted.1)
      (λ j less inside. before (suc j) (omega (arith, less)) (omega (arith, inside)))
      (λ j le inside. behind (suc j) (omega (arith, le)) (omega (arith, inside))),
)

length-insert_at :
    (i : ℕ) (entry : ImageRange) (entries : List ImageRange)
    → length (insert_at i entry entries) ≡ suc (length entries)
unfolding insert_at
length-insert_at zero entry entries = refl
length-insert_at (suc i) entry [] = refl
length-insert_at (suc i) entry (e ∷ entries) = ap suc (length-insert_at i entry entries)

pub insert_sorted-IsValid :
    (entry : ImageRange) (entries : List ImageRange)
    → IsValid entries
    → IsValid (insert_sorted entry entries)
unfolding insert_sorted
insert_sorted-IsValid entry entries v =
    let start = entry.start_address in
    let count = length entries in
    let place = insertion_point (start_at entries) start count 0 count in
    let is_place : IsPlace (start_at entries) start count place =
      insertion_point-IsPlace (start_at entries) start count count 0 count (omega arith)
        (omega arith) (omega arith) (inl refl) (inl refl) in
    if-cases IsValid (leb max_cache_entries count) (λ full. v)
      (λ room. (
        insert_at-IsSorted place entry entries (v.0)
            (λ j less inside. below j place less inside is_place)
            (λ j le inside. above j place le inside is_place),
        ground (arith, room, length-insert_at place entry entries),
      ))
  where
    below :
        (j place : ℕ)
        → j < place
        → j < length entries
        → IsPlace (start_at entries) (entry.start_address) (length entries) place
        → start_at entries j ≤ entry.start_address
    below j place less inside (le, inl none_before, after) =
        absurd (omega (arith, less, none_before))
    below j place less inside (le, inr low, after) = omega (
      arith,
      low,
      start_at_mono entries j (place - 1) (v.0) (omega (arith, less)) (omega (arith, less, le)),
    )

    above :
        (j place : ℕ)
        → place ≤ j
        → j < length entries
        → IsPlace (start_at entries) (entry.start_address) (length entries) place
        → entry.start_address ≤ start_at entries j
    above j place order inside (le, before, inl at_end) =
        absurd (omega (arith, order, inside, at_end))
    above j place order inside (le, before, inr high) =
        omega (arith, high, start_at_mono entries place j (v.0) order inside)

add_image-IsValid :
    (loader : Loader) (entries : List ImageRange) (image : ℕ × ℕ)
    → IsValid entries
    → IsValid (add_image loader entries image)
add_image-IsValid loader entries (header, name) v =
    known (find_by_header entries header) (populate_cache_entry loader header name)
  where
    known : (o p : Option ImageRange) → IsValid (add_unknown entries o p)
    known none none = v
    known none (some entry) = insert_sorted-IsValid entry entries v
    known (some r) p = v

-- The notifier of dyld keeps the cache sorted and within its 2048 entries, whatever images it adds.
pub add_images-IsValid :
    (loader : Loader) (images : List (ℕ × ℕ)) (entries : List ImageRange)
    → IsValid entries
    → IsValid (add_images loader images entries)
unfolding add_images
add_images-IsValid loader [] entries v = v
add_images-IsValid loader (image ∷ images) entries v =
    if-both IsValid (ltb (length entries) max_cache_entries)
      (add_images-IsValid loader images (add_image loader entries image)
        (add_image-IsValid loader entries image v))
      v
