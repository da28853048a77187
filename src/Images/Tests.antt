-- ===== src/Images/Tests.antt =====
-- An image with a segment of 256 bytes, looked for in an empty cache.
use kscrash.Prelude.{◌≡◌, refl, true, some, [], ◌∷◌, codes, arith}
use kscrash.Compact.Section.{bisect}
use kscrash.Images.{
  ImageInfo, Loader, Segment, magic_64, segment_64, segments_of, first_named, ranges_of, min_start,
  max_stop, unwind_info_of, populate_cache_entry, in_segments, scan_images, linear_scan_for_address,
}
use kscrash.Images.Cache.{Cache, answered, get_unwind_info_for_address, find_cached}
use kscrash.Images.Cache.Lookup.{Outcome, get_unwind_info_for_address-Outcome}

abbrev text : Segment
text = record {
  segment_name = codes "__TEXT";
  vmaddr = 4096;
  vmsize = 256;
  fileoff = 0;
  filesize = 256;
}

-- The image lies 65536 bytes above the address that it was linked for.
abbrev loader : Loader
loader = record {
  header_at = λ a. record { magic = magic_64; commands = segment_64 text ∷ [] };
  section_data = λ a name. (70_000, 32);
  images = some ((69_632, 1) ∷ []);
}

abbrev empty : Cache
empty = record { available = true; entries = [] }

abbrev expected : ImageInfo
expected = record {
  header = 69_632;
  unwind_info = 70_000;
  unwind_info_size = 32;
  eh_frame = 70_000;
  eh_frame_size = 32;
  slide = 65_536;
  has_compact_unwind = true;
  has_eh_frame = true;
}

get_unwind_info_for_address_test :
    (get_unwind_info_for_address loader 69_700 empty).0 ≡ answered expected
unfolding get_unwind_info_for_address find_cached linear_scan_for_address scan_images
    populate_cache_entry segments_of first_named ranges_of min_start max_stop unwind_info_of
    in_segments bisect
get_unwind_info_for_address_test = refl

get_unwind_info_for_address-Outcome_example :
    Outcome empty 69_700
      (linear_scan_for_address loader 69_700)
      (get_unwind_info_for_address loader 69_700 empty)
get_unwind_info_for_address-Outcome_example =
    get_unwind_info_for_address-Outcome empty 69_700 (tt, omega arith) loader
