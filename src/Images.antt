-- ===== src/Images.antt =====
-- KSBinaryImageCache.c: what is cached of a binary image. The structures of the loader in memory
-- are data here: the load commands of each header, and the list of images that dyld keeps.
pub mod Cache
mod Tests
use kscrash.Prelude.{
  ℕ, zero, suc, ◌+◌, ◌-◌, Bool, true, false, ◌&&◌, ◌||◌, not, Option, none, some, List, [], ◌∷◌,
  ◌++◌, length, map, take, Bytes, codes, c_string, uint64_max, ◌==◌, ltb, leb, if◌then◌else◌,
}
use kscrash.Dwarf.Reader.{wrap, word_mod}
use kscrash.Monitor.Registry.{same_text}

-- `KSSegmentRange`.
pub record SegmentRange : Type 0 where
  pub start : ℕ
  pub stop : ℕ

-- `KSBinaryImageUnwindInfo`.
pub record ImageInfo : Type 0 where
  pub header : ℕ
  pub unwind_info : ℕ
  pub unwind_info_size : ℕ
  pub eh_frame : ℕ
  pub eh_frame_size : ℕ
  pub slide : ℕ
  pub has_compact_unwind : Bool
  pub has_eh_frame : Bool

-- `KSBinaryImageRange`, with `segments` up to its count.
pub record ImageRange : Type 0 where
  pub start_address : ℕ
  pub end_address : ℕ
  pub slide : ℕ
  pub segment_base : ℕ
  pub header : ℕ
  pub name : ℕ
  pub segments : List SegmentRange
  pub unwind_info : ImageInfo

abbrev pub max_segments : ℕ
max_segments = 16

-- A segment command, of 64 bits or of 32.
pub record Segment : Type 0 where
  pub segment_name : Bytes
  pub vmaddr : ℕ
  pub vmsize : ℕ
  pub fileoff : ℕ
  pub filesize : ℕ

pub data LoadCommand : Type 0 where
  segment_64 : Segment → LoadCommand
  segment_32 : Segment → LoadCommand
  other_command : LoadCommand

pub data Magic : Type 0 where
  magic_64 : Magic
  magic_32 : Magic
  other_magic : Magic

pub record MachHeader : Type 0 where
  pub magic : Magic
  pub commands : List LoadCommand

-- The memory's headers, `getsectiondata` of a header and the name of a section in __TEXT (the
-- address and the size), and the images of dyld, each with its address and its path.
pub record Loader : Type 0 where
  pub header_at : ℕ → MachHeader
  pub section_data : ℕ → Bytes → ℕ × ℕ
  pub images : Option (List (ℕ × ℕ))

-- The comparisons of `segname`, with the NUL behind the name.
abbrev pub is_named : Segment → Bytes → Bool
is_named s name = same_text (c_string (s.segment_name)) name

-- The segments that the code looks at: those of the header's own width.
unfoldable pub segments_of : Magic → List LoadCommand → List Segment
segments_of magic [] = []
segments_of magic_64 (segment_64 s ∷ commands) = s ∷ segments_of magic_64 commands
segments_of magic_32 (segment_32 s ∷ commands) = s ∷ segments_of magic_32 commands
segments_of magic (command ∷ commands) = segments_of magic commands

-- `a - b` of `uintptr_t`.
abbrev pub subtract_word : ℕ → ℕ → ℕ
subtract_word a b = wrap (a + (word_mod - b))

-- The first segment of a name gives a value, and 0 stands for none.
unfoldable pub first_named : Bytes → (Segment → ℕ) → List Segment → ℕ
first_named name value [] = 0
first_named name value (s ∷ segments) =
    let rest = first_named name value segments in if is_named s name then value s else rest

abbrev pub text_slide : ℕ → List Segment → ℕ
text_slide header = first_named (codes "__TEXT") (λ s. subtract_word header (s.vmaddr))

-- `ksbic_getImageSlide`, and `slide` of `populateCacheEntry`.
unfoldable pub get_image_slide : Loader → ℕ → ℕ
get_image_slide loader header =
    let image = loader.header_at header in
    if header == 0 then 0 else text_slide header (segments_of (image.magic) (image.commands))

-- The segments with file content, from `vmaddr` to the end.
unfoldable pub ranges_of : List Segment → List SegmentRange
ranges_of [] = []
ranges_of (s ∷ segments) =
    let rest = ranges_of segments in
    if ltb 0 (s.vmsize) && ltb 0 (s.filesize)
    then record { start = s.vmaddr; stop = wrap (s.vmaddr + s.vmsize) } ∷ rest
    else rest

-- `minAddr` and `maxAddr`.
unfoldable pub min_start : List SegmentRange → ℕ
min_start [] = uint64_max
min_start (r ∷ ranges) = let rest = min_start ranges in if ltb (r.start) rest then r.start else rest

unfoldable pub max_stop : List SegmentRange → ℕ
max_stop [] = 0
max_stop (r ∷ ranges) = let rest = max_stop ranges in if ltb rest (r.stop) then r.stop else rest

abbrev pub slid : ℕ → SegmentRange → SegmentRange
slid slide r = record { start = wrap (r.start + slide); stop = wrap (r.stop + slide) }

unfoldable pub unwind_info_of : Loader → ℕ → ℕ → ImageInfo
unwind_info_of loader header slide =
    let (unwind, unwind_size) = loader.section_data header (codes "__unwind_info") in
    let (eh_frame, eh_frame_size) = loader.section_data header (codes "__eh_frame") in
    record {
      header = header;
      unwind_info = unwind;
      unwind_info_size = unwind_size;
      eh_frame = eh_frame;
      eh_frame_size = eh_frame_size;
      slide = slide;
      has_compact_unwind = not (unwind == 0) && ltb 0 unwind_size;
      has_eh_frame = not (eh_frame == 0) && ltb 0 eh_frame_size;
    }

abbrev pub entry_of : Loader → ℕ → ℕ → List Segment → ImageRange
entry_of loader header name segments =
    let slide = text_slide header segments in
    let ranges = ranges_of segments in
    let low = min_start ranges in
    let high = max_stop ranges in
    record {
      start_address = if low == uint64_max then 0 else wrap (low + slide);
      end_address = if high == 0 then 0 else wrap (high + slide);
      slide = slide;
      segment_base =
          first_named (codes "__LINKEDIT") (λ s. subtract_word (s.vmaddr) (s.fileoff)) segments;
      header = header;
      name = name;
      segments = map (slid slide) (take max_segments ranges);
      unwind_info = unwind_info_of loader header slide;
    }

-- `populateCacheEntry`: `none` stands for false, where there is no header or no segment.
unfoldable pub populate_cache_entry : Loader → ℕ → ℕ → Option ImageRange
populate_cache_entry loader header name =
    let image = loader.header_at header in
    let entry = entry_of loader header name (segments_of (image.magic) (image.commands)) in
    if header == 0 || length (entry.segments) == 0 then none else some entry

-- `addressInCachedSegments`.
unfoldable pub in_segments : List SegmentRange → ℕ → Bool
in_segments [] address = false
in_segments (r ∷ segments) address =
    (leb (r.start) address && ltb address (r.stop)) || in_segments segments address

-- The loop of `linearScanForAddress`, over the images of dyld.
abbrev pub or_scan : ℕ → Option ImageRange → Option ImageRange → Option ImageRange
or_scan address none rest = rest
or_scan address (some entry) rest =
    if in_segments (entry.segments) address then some entry else rest

unfoldable pub scan_images : Loader → ℕ → List (ℕ × ℕ) → Option ImageRange
scan_images loader address [] = none
scan_images loader address ((header, name) ∷ images) =
    or_scan address (populate_cache_entry loader header name) (scan_images loader address images)

abbrev pub scan_listed : Loader → ℕ → Option (List (ℕ × ℕ)) → Option ImageRange
scan_listed loader address none = none
scan_listed loader address (some images) = scan_images loader address images

-- `linearScanForAddress`: the entry of the image, whose header is what it returns.
unfoldable pub linear_scan_for_address : Loader → ℕ → Option ImageRange
linear_scan_for_address loader address = scan_listed loader address (loader.images)
