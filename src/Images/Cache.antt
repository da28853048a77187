-- ===== src/Images/Cache.antt =====
-- The cache of KSBinaryImageCache.c. A caller takes it for itself and gives it back; to another it
-- is not there meanwhile.
pub mod Sorted
pub mod Lookup
use kscrash.Prelude.{
  ℕ, zero, suc, ◌+◌, ◌-◌, ◌/◌, Bool, true, false, ◌&&◌, ◌||◌, Option, none, some, List, [], ◌∷◌,
  length, get_elem?, ◌==◌, ltb, leb, if◌then◌else◌,
}
use kscrash.Compact.Section.{last_at_most}
use kscrash.Images.{
  ImageInfo, ImageRange, Loader, populate_cache_entry, in_segments, linear_scan_for_address,
}

abbrev pub max_cache_entries : ℕ
max_cache_entries = 2048

-- `available` says that `g_cache_ptr` is not NULL.
pub record Cache : Type 0 where
  pub available : Bool
  pub entries : List ImageRange

abbrev pub start_of : Option ImageRange → ℕ
start_of none = 0
start_of (some r) = r.start_address

-- `cache->entries[i].startAddress`.
abbrev pub start_at : List ImageRange → ℕ → ℕ
start_at entries i = start_of (get_elem? entries i)

-- `binarySearchCache`, the loop of the searches in `__unwind_info`.
abbrev pub binary_search_cache : List ImageRange → ℕ → Option ℕ
binary_search_cache entries address = last_at_most (start_at entries) address (length entries)

-- The search for the place of a new entry, the first whose start is not below.
unfoldable pub insertion_point : (ℕ → ℕ) → ℕ → ℕ → ℕ → ℕ → ℕ
insertion_point offset_at start zero left right = left
insertion_point offset_at start (suc fuel) left right =
    let mid = left + (right - left) / 2 in
    let above = insertion_point offset_at start fuel (suc mid) right in
    let below = insertion_point offset_at start fuel left mid in
    if ltb left right then (if ltb (offset_at mid) start then above else below) else left

-- The entries from `i` on make room.
unfoldable pub insert_at : ℕ → ImageRange → List ImageRange → List ImageRange
insert_at zero entry entries = entry ∷ entries
insert_at (suc i) entry [] = entry ∷ []
insert_at (suc i) entry (e ∷ entries) = e ∷ insert_at i entry entries

-- `insertSortedCacheEntry`.
unfoldable pub insert_sorted : ImageRange → List ImageRange → List ImageRange
insert_sorted entry entries =
    if leb max_cache_entries (length entries)
    then entries
    else insert_at
        (insertion_point (start_at entries) (entry.start_address) (length entries) 0
          (length entries))
        entry entries

-- Whether an entry is the one of an address.
abbrev pub holds : ImageRange → ℕ → Bool
holds r address =
    (leb (r.start_address) address && ltb address (r.end_address))
    && in_segments (r.segments) address

abbrev pub or_back : ℕ → Option ImageRange → Option ImageRange → Option ImageRange
or_back address none rest = rest
or_back address (some r) rest = if holds r address then some r else rest

-- The scan backwards over the first `count` entries.
unfoldable pub scan_back : List ImageRange → ℕ → ℕ → Option ImageRange
scan_back entries address zero = none
scan_back entries address (suc count) =
    or_back address (get_elem? entries count) (scan_back entries address count)

abbrev pub scan_from : List ImageRange → ℕ → Option ℕ → Option ImageRange
scan_from entries address none = none
scan_from entries address (some i) = scan_back entries address (suc i)

unfoldable pub find_cached : List ImageRange → ℕ → Option ImageRange
find_cached entries address = scan_from entries address (binary_search_cache entries address)

-- What a look for unwind information gives back: true with the information, true with nothing
-- written to `outInfo`, or false.
pub data Answer : Type 0 where
  answered : ImageInfo → Answer
  unwritten : Answer
  missing : Answer

-- A cache miss of `ksbic_getUnwindInfoForAddress`.
abbrev pub on_miss : Cache → Option ImageRange → Answer × Cache
on_miss c none = (missing, c)
on_miss c (some entry) =
    if ltb (length (c.entries)) max_cache_entries
    then (answered (entry.unwind_info), record c { entries = insert_sorted entry (c.entries) })
    else (unwritten, c)

abbrev pub on_lookup : Cache → Option ImageRange → Option ImageRange → Answer × Cache
on_lookup c none scanned = on_miss c scanned
on_lookup c (some entry) scanned = (answered (entry.unwind_info), c)

abbrev pub uncached : Option ImageRange → Answer
uncached none = missing
uncached (some entry) = answered (entry.unwind_info)

-- `ksbic_getUnwindInfoForAddress`.
unfoldable pub get_unwind_info_for_address : Loader → ℕ → Cache → Answer × Cache
get_unwind_info_for_address loader address c =
    let scanned = linear_scan_for_address loader address in
    if c.available
    then on_lookup c (find_cached (c.entries) address) scanned
    else (uncached scanned, c)

-- `ksbic_getImageDetailsForAddress` and `ksbic_findImageForAddress`: the entry whose header, slide,
-- segment base and name they give back.
abbrev pub on_details_miss : Cache → Option ImageRange → Option ImageRange × Cache
on_details_miss c none = (none, c)
on_details_miss c (some entry) = (
  some entry,
  if ltb (length (c.entries)) max_cache_entries
      then record c { entries = insert_sorted entry (c.entries) }
      else c,
)

abbrev pub on_details : Cache → Option ImageRange → Option ImageRange → Option ImageRange × Cache
on_details c none scanned = on_details_miss c scanned
on_details c (some entry) scanned = (some entry, c)

unfoldable pub get_image_details_for_address : Loader → ℕ → Cache → Option ImageRange × Cache
get_image_details_for_address loader address c =
    let scanned = linear_scan_for_address loader address in
    if c.available then on_details c (find_cached (c.entries) address) scanned else (scanned, c)

-- `findByHeader`, as the entry that it finds.
unfoldable pub find_by_header : List ImageRange → ℕ → Option ImageRange
find_by_header [] header = none
find_by_header (r ∷ entries) header =
    let rest = find_by_header entries header in if r.header == header then some r else rest

abbrev pub insert_populated : Cache → Option ImageRange → Answer × Cache
insert_populated c none = (missing, c)
insert_populated c (some entry) =
    (answered (entry.unwind_info), record c { entries = insert_sorted entry (c.entries) })

abbrev pub on_header : Cache → Option ImageRange → Option ImageRange → Answer × Cache
on_header c none populated = insert_populated c populated
on_header c (some entry) populated = (answered (entry.unwind_info), c)

-- `ksbic_getUnwindInfoForHeader`.
unfoldable pub get_unwind_info_for_header : Loader → ℕ → Cache → Answer × Cache
get_unwind_info_for_header loader header c =
    let populated = populate_cache_entry loader header 0 in
    if header == 0
    then (missing, c)
    else if c.available
    then on_header c (find_by_header (c.entries) header) populated
    else (uncached populated, c)

abbrev pub add_populated : List ImageRange → Option ImageRange → List ImageRange
add_populated entries none = entries
add_populated entries (some entry) = insert_sorted entry entries

abbrev pub add_unknown : List ImageRange → Option ImageRange → Option ImageRange → List ImageRange
add_unknown entries none populated = add_populated entries populated
add_unknown entries (some known) populated = entries

abbrev pub add_image : Loader → List ImageRange → ℕ × ℕ → List ImageRange
add_image loader entries (header, name) =
    add_unknown entries (find_by_header entries header) (populate_cache_entry loader header name)

-- The loop of `ksbic_dyld_image_notifier` over the images that are added.
unfoldable pub add_images : Loader → List (ℕ × ℕ) → List ImageRange → List ImageRange
add_images loader [] entries = entries
add_images loader (image ∷ images) entries =
    let rest = add_images loader images (add_image loader entries image) in
    if ltb (length entries) max_cache_entries then rest else entries
