-- ===== src/Compact/Section/Contains.antt =====
-- The function that `kscu_findEntry` gives is the one that the target lies in.
use kscrash.Prelude.{
  ℕ, ◌+◌, ◌-◌, ◌%◌, ◌≤◌, ◌<◌, ◌≡◌, ◌≢◌, sym, ap, subst, ◌⊎◌, inl, inr, true, ◌||◌, not, Option,
  none, some, arith, ◌==◌, ltb, leb, if◌then◌else◌, if-cases, if-both, ltb→lt, Bool-cases,
}
use kscrash.Dwarf.Reader.{Memory, wrap, word_mod}
use kscrash.Compact.Section.{
  u32_mod, binary_search, add_u32, subtract_u32, PageEntry, UnwindEntry, last_at_most,
  before_sentinel, search_first_level, read_u32, read_u16, regular_offset, regular_entry,
  search_regular_page, entry_func_offset, entry_encoding_index, compressed_entry, with_encoding,
  compressed_page_entry, search_compressed_page, encoding_at, search_page, index_entry,
  index_offset, filled, find_in_page, find_entry,
}
use kscrash.Compact.Section.Covers.{
  IsLast, EndsAtLast, binary_search-EndsAtLast, last_at_most-IsLast,
}

-- The function starts at the target or in front of it, and ends behind it where its end is known.
abbrev Contains : ℕ → Option PageEntry → Type 0
Contains target none = Unit
Contains target (some e) =
    (e.function_offset ≤ target)
    × ((e.next_function_offset ≤ e.function_offset) ⊎ (target < e.next_function_offset))

-- The page is one whose offset is not above the target.
abbrev IsPage : (ℕ → ℕ) → ℕ → Option ℕ → Type 0
IsPage offset_at target none = Unit
IsPage offset_at target (some i) = offset_at i ≤ target

before_sentinel-IsPage :
    (offset_at : ℕ → ℕ) (index_count target : ℕ) (found : Option ℕ)
    → offset_at (index_count - 2) ≤ offset_at (index_count - 1)
    → IsLast offset_at target index_count found
    → IsPage offset_at target (before_sentinel index_count found)
before_sentinel-IsPage offset_at n target none order last = tt
before_sentinel-IsPage offset_at n target (some r) order last =
    if-cases (IsPage offset_at target) (leb (n - 1) r)
      (λ at_end.
        let same : r ≡ n - 1 = ground (arith, at_end, last.0) in
        let there = ap offset_at same in
        if-both (IsPage offset_at target) (n == 1) tt (omega (arith, there, last.1, order)))
      (λ inside. last.1)

search_first_level-IsPage :
    (offset_at : ℕ → ℕ) (index_count target : ℕ)
    → offset_at (index_count - 2) ≤ offset_at (index_count - 1)
    → IsPage offset_at target (search_first_level offset_at index_count target)
unfolding search_first_level
search_first_level-IsPage offset_at n target order =
    if-both (IsPage offset_at target) (n == 0 || leb 2_147_483_648 n) tt (
      before_sentinel-IsPage offset_at n target (last_at_most offset_at target n) order
        (last_at_most-IsLast offset_at target n))

module _ (memory : Memory) (target : ℕ) where
  regular_entry-Contains :
      (entries count : ℕ) (found : Option ℕ)
      → IsLast (regular_offset memory entries) target count found
      → Contains target (regular_entry memory entries count found)
  regular_entry-Contains entries count none last = tt
  regular_entry-Contains entries count (some i) last = elim (Bool-cases (ltb (i + 1) count)) [
    | inl more ↦ rw more (last.1, followed more (last.2))
    | inr at_end ↦ rw at_end (last.1, inl (omega arith))
  ]
    where
      next : ℕ
      next = regular_offset memory entries (i + 1)

      followed :
          ltb (i + 1) count ≡ true
          → (i + 1 ≡ count) ⊎ (target < next)
          → (next ≤ regular_offset memory entries i) ⊎ (target < next)
      followed more (inl same) = absurd (ground (arith, more, same))
      followed more (inr above) = inr above

  search_regular_page-Contains :
      (page : ℕ) → Contains target (search_regular_page memory page target)
  unfolding search_regular_page
  search_regular_page-Contains page =
      let count = read_u16 memory (page + 6) in
      let entries = page + read_u16 memory (page + 4) in
      if-both (Contains target) (count == 0) tt (
        regular_entry-Contains entries count
          (last_at_most (regular_offset memory entries) target count)
          (last_at_most-IsLast (regular_offset memory entries) target count))

  module _ (page_base : ℕ) (base_below : page_base ≤ target) (small : target < u32_mod) where
    abbrev offset_in : ℕ → ℕ → ℕ
    offset_in entries i = entry_func_offset (compressed_entry memory entries i)

    relative : subtract_u32 target page_base ≡ target - page_base
    relative = omega (arith, base_below, small)

    with_encoding-Contains :
        (entries count i : ℕ) (encoding : Option ℕ)
        → IsLast (offset_in entries) (subtract_u32 target page_base) count (some i)
        → Contains target (with_encoding memory page_base entries count i encoding)
    with_encoding-Contains entries count i none last = tt
    with_encoding-Contains entries count i (some e) last = elim (Bool-cases (ltb (i + 1) count)) [
      | inl more ↦ rw more (start, followed more (last.2))
      | inr at_end ↦ rw at_end (start, inl (omega arith))
    ]
      where
        here : ℕ
        here = offset_in entries i

        next : ℕ
        next = offset_in entries (i + 1)

        start : add_u32 page_base here ≤ target
        start = omega (arith, base_below, small, last.1)

        followed :
            ltb (i + 1) count ≡ true
            → (i + 1 ≡ count) ⊎ (subtract_u32 target page_base < next)
            → (add_u32 page_base next ≤ add_u32 page_base here) ⊎ (target < add_u32 page_base next)
        followed more (inl same) = absurd (ground (arith, more, same))
        followed more (inr above) = elim (Bool-cases (ltb (page_base + next) u32_mod)) [
          | inl fits ↦ inr (omega (arith, relative, above, ltb→lt (page_base + next) u32_mod fits))
          | inr wraps ↦ inl (ground (arith, base_below, small, last.1, relative, wraps))
        ]

    compressed_page_entry-Contains :
        (section page entries count : ℕ) (found : Option ℕ)
        → IsLast (offset_in entries) (subtract_u32 target page_base) count found
        → Contains target (compressed_page_entry memory section page page_base entries count found)
    compressed_page_entry-Contains section page entries count none last = tt
    compressed_page_entry-Contains section page entries count (some i) last =
        with_encoding-Contains entries count i
          (encoding_at memory section page
            (entry_encoding_index (compressed_entry memory entries i)))
          last

    search_page-Contains :
        (section page : ℕ) → Contains target (search_page memory section page target page_base)
    unfolding search_page search_compressed_page
    search_page-Contains section page =
        let count = read_u16 memory (page + 6) in
        let entries = page + read_u16 memory (page + 4) in
        if-both (Contains target) (read_u32 memory page == 2) (search_regular_page-Contains page) (
          if-both (Contains target) (read_u32 memory page == 3)
            (if-both (Contains target) (count == 0) tt (
              compressed_page_entry-Contains section page entries count
                (last_at_most (offset_in entries) (subtract_u32 target page_base) count)
                (last_at_most-IsLast (offset_in entries) (subtract_u32 target page_base) count)))
            tt)

-- The entry as `kscu_findEntry` gives it back: a length of 0 stands for one that is not known.
abbrev pub HasTarget : ℕ → Option UnwindEntry → Type 0
HasTarget target_pc none = Unit
HasTarget target_pc (some e) =
    (e.function_start ≤ target_pc)
    × ((e.function_length ≡ 0) ⊎ (target_pc < e.function_start + e.function_length))

module _ (memory : Memory) (section target_pc image_base slide : ℕ)
    (in_image : image_base ≤ target_pc) (near : target_pc < image_base + u32_mod)
    (word : target_pc < word_mod) where
  filled-HasTarget :
      (lsda_index : ℕ) (e : Option PageEntry)
      → Contains (target_pc - image_base) e
      → HasTarget target_pc (filled memory section lsda_index image_base slide e)
  filled-HasTarget lsda_index none h = tt
  filled-HasTarget lsda_index (some e) h = (omega (arith, h.0), ended (h.1))
    where
      start : wrap (image_base + e.function_offset) ≡ image_base + e.function_offset
      start = omega (arith, h.0)

      length : ℕ
      length =
          if ltb (e.function_offset) (e.next_function_offset)
          then e.next_function_offset - e.function_offset
          else 0

      ended :
          (e.next_function_offset ≤ e.function_offset)
            ⊎ (target_pc - image_base < e.next_function_offset)
          → (length ≡ 0) ⊎ (target_pc < wrap (image_base + e.function_offset) + length)
      ended (inl unknown) = inl (ground (arith, unknown))
      ended (inr above) = inr (ground (arith, above, start, h.0))

  find_in_page-HasTarget :
      (o : Option ℕ)
      → IsPage (index_offset memory section) (target_pc - image_base) o
      → HasTarget target_pc
          (find_in_page memory section (target_pc - image_base) image_base slide o)
  find_in_page-HasTarget none h = tt
  find_in_page-HasTarget (some i) h =
      let entry = index_entry memory section i in
      let page = section + read_u32 memory (entry + 4) in
      if-both (HasTarget target_pc) (read_u32 memory (entry + 4) == 0) tt (
        filled-HasTarget (read_u32 memory (entry + 8))
          (search_page memory section page (target_pc - image_base) (read_u32 memory entry))
          (search_page-Contains memory (target_pc - image_base) (read_u32 memory entry) h
            (omega arith) section page))

  lookup-HasTarget :
      (size : ℕ)
      → index_offset memory section (read_u32 memory (section + 24) - 2)
        ≤ index_offset memory section (read_u32 memory (section + 24) - 1)
      → HasTarget target_pc (find_entry memory section size target_pc image_base slide)
  unfolding find_entry
  lookup-HasTarget size order =
      let count = read_u32 memory (section + 24) in
      if-both (HasTarget target_pc) (section == 0 || ltb size 28) tt (
        if-both (HasTarget target_pc) (not (read_u32 memory section == 1)) tt (
          subst
            (λ t. HasTarget target_pc (
              find_in_page memory section t image_base slide
                (search_first_level (index_offset memory section) count t)))
            (sym offset)
            (find_in_page-HasTarget
              (search_first_level (index_offset memory section) count (target_pc - image_base))
              (search_first_level-IsPage (index_offset memory section) count
                (target_pc - image_base) order))))
    where
      offset : wrap (target_pc + (word_mod - image_base)) % u32_mod ≡ target_pc - image_base
      offset = omega arith

  -- A function that `kscu_findEntry` gives of a target in the 4 GB behind the start of its image
  -- starts at the target or in front of it and ends behind it, where it says where the function
  -- ends. The section holds any bytes, but the last two entries of its first-level index are in
  -- order. And its binary searches end within a round for each entry, whatever the offsets are
  -- and however many.
  pub find_entry-HasTarget :
      (size : ℕ)
      → index_offset memory section (read_u32 memory (section + 24) - 2)
        ≤ index_offset memory section (read_u32 memory (section + 24) - 1)
      → HasTarget target_pc (find_entry memory section size target_pc image_base slide)
        × ((offset_at : ℕ → ℕ) (target count : ℕ) → binary_search offset_at target count ≢ none)
  find_entry-HasTarget size order = (
    lookup-HasTarget size order,
    λ offset_at target count unsettled.
        subst (EndsAtLast offset_at target count) unsettled
          (binary_search-EndsAtLast offset_at target count),
  )
