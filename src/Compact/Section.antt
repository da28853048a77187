-- ===== src/Compact/Section.antt =====
-- KSCompactUnwind.c: the search in the section `__unwind_info`, whose fields are read out of memory.
pub mod Covers
pub mod Contains
use kscrash.Prelude.{
  ℕ, zero, suc, ◌+◌, ◌-◌, ◌*◌, ◌/◌, ◌%◌, Bool, ◌&&◌, ◌||◌, not, Option, none, some, ◌==◌, ltb, leb,
  if◌then◌else◌,
}
use kscrash.Dwarf.Reader.{wrap, word_mod, Memory, little_endian}
use kscrash.Dwarf.Registers.{Arch, arm64, x86_64}

abbrev pub u32_mod : ℕ
u32_mod = 4_294_967_296

-- `uint32_t` addition and subtraction.
abbrev pub add_u32 : ℕ → ℕ → ℕ
add_u32 a b = (a + b) % u32_mod

abbrev pub subtract_u32 : ℕ → ℕ → ℕ
subtract_u32 a b = (a + (u32_mod - b)) % u32_mod

-- `sizeof(struct unwind_info_section_header)`.
abbrev pub section_header_size : ℕ
section_header_size = 28

-- `UNWIND_COMPRESSED_ENTRY_FUNC_OFFSET` and `UNWIND_COMPRESSED_ENTRY_ENCODING_INDEX`.
abbrev pub entry_func_offset : ℕ → ℕ
entry_func_offset entry = entry % 16_777_216

abbrev pub entry_encoding_index : ℕ → ℕ
entry_encoding_index entry = entry / 16_777_216 % 256

-- What a search of a page gives back.
pub record PageEntry : Type 0 where
  pub encoding : ℕ
  pub function_offset : ℕ
  pub next_function_offset : ℕ

-- `KSCompactUnwindEntry`.
pub record UnwindEntry : Type 0 where
  pub function_start : ℕ
  pub function_length : ℕ
  pub encoding : ℕ
  pub personality_function : ℕ
  pub lsda : ℕ

-- The loop of the three binary searches for the last of the offsets that is not above the target.
-- `stop` is `right + 1`, and a result of `none` stands for -1. Where the rounds are used up and the
-- loop would go on, it gives nothing.
unfoldable pub bisect : (ℕ → ℕ) → ℕ → ℕ → ℕ → ℕ → Option ℕ → Option (Option ℕ)
bisect offset_at target zero left stop result = if ltb left stop then none else some result
bisect offset_at target (suc fuel) left stop result =
    let mid = left + (stop - 1 - left) / 2 in
    let above = bisect offset_at target fuel (suc mid) stop (some mid) in
    let below = bisect offset_at target fuel left mid result in
    if ltb left stop then (if leb (offset_at mid) target then above else below) else some result

-- A search of `count` entries, with a round for each.
abbrev pub binary_search : (ℕ → ℕ) → ℕ → ℕ → Option (Option ℕ)
binary_search offset_at target count = bisect offset_at target count 0 count none

abbrev pub settled : Option (Option ℕ) → Option ℕ
settled none = none
settled (some result) = result

abbrev pub last_at_most : (ℕ → ℕ) → ℕ → ℕ → Option ℕ
last_at_most offset_at target count = settled (binary_search offset_at target count)

-- The entry in front of the sentinel, where the search has come to the sentinel.
abbrev pub before_sentinel : ℕ → Option ℕ → Option ℕ
before_sentinel index_count none = none
before_sentinel index_count (some result) =
    if leb (index_count - 1) result
    then (if index_count == 1 then none else some (index_count - 2))
    else some result

-- `binarySearchFirstLevelIndex`. A count of 2^31 and more is negative as an `int32_t`.
unfoldable pub search_first_level : (ℕ → ℕ) → ℕ → ℕ → Option ℕ
search_first_level offset_at index_count target =
    if index_count == 0 || leb 2_147_483_648 index_count
    then none
    else before_sentinel index_count (last_at_most offset_at target index_count)

module _ (memory : Memory) where
  -- `readU32`, and the fields of two bytes.
  abbrev pub read_u32 : ℕ → ℕ
  read_u32 address = little_endian memory 4 address

  abbrev pub read_u16 : ℕ → ℕ
  read_u16 address = little_endian memory 2 address

  -- `entries[i].functionOffset` of a regular page, and the entry `i` of a compressed one.
  abbrev pub regular_offset : ℕ → ℕ → ℕ
  regular_offset entries i = read_u32 (entries + 8 * i)

  abbrev pub compressed_entry : ℕ → ℕ → ℕ
  compressed_entry entries i = read_u32 (entries + 4 * i)

  abbrev pub regular_entry : ℕ → ℕ → Option ℕ → Option PageEntry
  regular_entry entries count none = none
  regular_entry entries count (some i) = some (record {
    encoding = read_u32 (entries + 8 * i + 4);
    function_offset = regular_offset entries i;
    next_function_offset = if ltb (i + 1) count then regular_offset entries (i + 1) else 0;
  })

  -- `searchRegularPage`.
  unfoldable pub search_regular_page : ℕ → ℕ → Option PageEntry
  search_regular_page page target =
      let count = read_u16 (page + 6) in
      let entries = page + read_u16 (page + 4) in
      if count == 0
      then none
      else regular_entry entries count (last_at_most (regular_offset entries) target count)

  -- The encoding at an index, out of the common ones or those of the page.
  unfoldable pub encoding_at : ℕ → ℕ → ℕ → Option ℕ
  encoding_at section page index =
      let common_count = read_u32 (section + 8) in
      if ltb index common_count
      then some (read_u32 (section + read_u32 (section + 4) + index * 4))
      else if ltb (index - common_count) (read_u16 (page + 10))
      then some (read_u32 (page + read_u16 (page + 8) + (index - common_count) * 4))
      else none

  abbrev pub with_encoding : ℕ → ℕ → ℕ → ℕ → Option ℕ → Option PageEntry
  with_encoding page_base entries count i none = none
  with_encoding page_base entries count i (some encoding) = some (record {
    encoding = encoding;
    function_offset = add_u32 page_base (entry_func_offset (compressed_entry entries i));
    next_function_offset =
        if ltb (i + 1) count
        then add_u32 page_base (entry_func_offset (compressed_entry entries (i + 1)))
        else 0;
  })

  abbrev pub compressed_page_entry : ℕ → ℕ → ℕ → ℕ → ℕ → Option ℕ → Option PageEntry
  compressed_page_entry section page page_base entries count none = none
  compressed_page_entry section page page_base entries count (some i) =
      with_encoding page_base entries count i
        (encoding_at section page (entry_encoding_index (compressed_entry entries i)))

  -- `searchCompressedPage`.
  unfoldable pub search_compressed_page : ℕ → ℕ → ℕ → ℕ → Option PageEntry
  search_compressed_page section page target page_base =
      let count = read_u16 (page + 6) in
      let entries = page + read_u16 (page + 4) in
      if count == 0
      then none
      else compressed_page_entry section page page_base entries count (
          last_at_most (λ i. entry_func_offset (compressed_entry entries i))
            (subtract_u32 target page_base) count)

  -- The loop of `findLSDA`, at most `rounds` entries long.
  unfoldable pub lsda_loop : ℕ → ℕ → ℕ → ℕ → ℕ
  lsda_loop zero address function_offset slide = 0
  lsda_loop (suc rounds) address function_offset slide =
      let rest = lsda_loop rounds (address + 8) function_offset slide in
      let offset = read_u32 address in
      let lsda_offset = read_u32 (address + 4) in
      if offset == 0 && lsda_offset == 0
      then 0
      else if offset == function_offset
      then wrap (lsda_offset + slide)
      else if ltb function_offset offset
      then 0
      else rest

  -- `findLSDA`, with the field `lsdaIndexArraySectionOffset`.
  unfoldable pub find_lsda : ℕ → ℕ → ℕ → ℕ → ℕ
  find_lsda section lsda_index function_offset slide =
      if lsda_index == 0 then 0 else lsda_loop 10_001 (section + lsda_index) function_offset slide

  -- The personality function of an encoding.
  unfoldable pub find_personality : ℕ → ℕ → ℕ → ℕ
  find_personality section encoding slide =
      let index = encoding / 268_435_456 % 4 in
      if ltb 0 index && leb index (read_u32 (section + 16))
      then wrap (read_u32 (section + read_u32 (section + 12) + (index - 1) * 4) + slide)
      else 0

  -- What `kscu_findEntry` writes into `outEntry`. Bit 30 of an encoding is KSCU_UNWIND_HAS_LSDA.
  abbrev pub fill_entry : ℕ → ℕ → ℕ → ℕ → PageEntry → UnwindEntry
  fill_entry section lsda_index image_base slide e = record {
    function_start = wrap (image_base + e.function_offset);
    function_length =
        if ltb (e.function_offset) (e.next_function_offset)
        then e.next_function_offset - e.function_offset
        else 0;
    encoding = e.encoding;
    personality_function = find_personality section (e.encoding) slide;
    lsda =
        if e.encoding / 1_073_741_824 % 2 == 1
        then find_lsda section lsda_index (e.function_offset) slide
        else 0;
  }

  abbrev pub filled : ℕ → ℕ → ℕ → ℕ → Option PageEntry → Option UnwindEntry
  filled section lsda_index image_base slide none = none
  filled section lsda_index image_base slide (some e) =
      some (fill_entry section lsda_index image_base slide e)

  -- The search of a second-level page by its kind, 2 or 3.
  unfoldable pub search_page : ℕ → ℕ → ℕ → ℕ → Option PageEntry
  search_page section page target page_base =
      if read_u32 page == 2
      then search_regular_page page target
      else if read_u32 page == 3
      then search_compressed_page section page target page_base
      else none

  -- `indices[i]`, an entry of 12 bytes, and its `functionOffset`.
  abbrev pub index_entry : ℕ → ℕ → ℕ
  index_entry section i = section + read_u32 (section + 20) + 12 * i

  abbrev pub index_offset : ℕ → ℕ → ℕ
  index_offset section i = read_u32 (index_entry section i)

  -- What follows the search of the first-level index.
  abbrev pub find_in_page : ℕ → ℕ → ℕ → ℕ → Option ℕ → Option UnwindEntry
  find_in_page section target image_base slide none = none
  find_in_page section target image_base slide (some i) =
      let entry = index_entry section i in
      if read_u32 (entry + 4) == 0
      then none
      else filled section (read_u32 (entry + 8)) image_base slide
          (search_page section (section + read_u32 (entry + 4)) target (read_u32 entry))

  -- `kscu_findEntry`, with an `outEntry` that is not NULL.
  unfoldable pub find_entry : ℕ → ℕ → ℕ → ℕ → ℕ → Option UnwindEntry
  find_entry section size target_pc image_base slide =
      let target = wrap (target_pc + (word_mod - image_base)) % u32_mod in
      if section == 0 || ltb size section_header_size
      then none
      else if not (read_u32 section == 1)
      then none
      else find_in_page section target image_base slide
          (search_first_level (index_offset section) (read_u32 (section + 24)) target)

-- `kscu_getMode`, and the mode as a number of four bits.
abbrev pub mode_of : ℕ → ℕ
mode_of encoding = encoding / 16_777_216 % 16

unfoldable pub get_mode : ℕ → ℕ
get_mode encoding = mode_of encoding * 16_777_216

-- `kscu_encodingRequiresDwarf`.
unfoldable pub encoding_requires_dwarf : Arch → ℕ → Bool
encoding_requires_dwarf arm64 encoding = mode_of encoding == 3
encoding_requires_dwarf x86_64 encoding = mode_of encoding == 4
