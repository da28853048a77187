-- ===== src/Compact/Tests.antt =====
-- A section with one compressed page of two functions, and a frame.
use kscrash.Prelude.{ℕ, ◌≢◌, ◌+◌, ◌-◌, ◌≡◌, refl, none, some, List, [], ◌∷◌, get_or, arith}
use kscrash.Dwarf.Reader.{Memory, little_endian}
use kscrash.Dwarf.Registers.{arm64, Frame}
use kscrash.Dwarf.Unwind.{done, unwind_row}
use kscrash.Compact.Section.{
  bisect, binary_search, search_first_level, search_compressed_page, encoding_at, search_page,
  find_personality, find_entry,
}
use kscrash.Compact.Section.Contains.{HasTarget, find_entry-HasTarget}
use kscrash.Compact.Decode.{decode}
use kscrash.Compact.Decode.Agrees.{frame_row, registers_of, stripped, decode-unwind_row}

abbrev section_bytes : List ℕ
section_bytes =
    1 ∷ 0 ∷ 0 ∷ 0 ∷ 28 ∷ 0 ∷ 0 ∷ 0 ∷ 1 ∷ 0 ∷ 0 ∷ 0 ∷ 32 ∷ 0 ∷ 0 ∷ 0 ∷ 0 ∷ 0 ∷ 0 ∷ 0 ∷ 32 ∷ 0 ∷ 0 ∷ 0
    ∷ 2 ∷ 0 ∷ 0 ∷ 0 ∷ 0 ∷ 0 ∷ 0 ∷ 4 ∷ 0 ∷ 1 ∷ 0 ∷ 0 ∷ 56 ∷ 0 ∷ 0 ∷ 0 ∷ 0 ∷ 0 ∷ 0 ∷ 0 ∷ 0 ∷ 2 ∷ 0 ∷ 0
    ∷ 0 ∷ 0 ∷ 0 ∷ 0 ∷ 0 ∷ 0 ∷ 0 ∷ 0 ∷ 3 ∷ 0 ∷ 0 ∷ 0 ∷ 12 ∷ 0 ∷ 2 ∷ 0 ∷ 20 ∷ 0 ∷ 0 ∷ 0 ∷ 0 ∷ 0 ∷ 0
    ∷ 0 ∷ 64 ∷ 0 ∷ 0 ∷ 0 ∷ []

-- The bytes stand from 4096 on. A word that is read safely has its address as its value.
abbrev memory : Memory
memory = record { byte = λ a. get_or section_bytes (a - 4096) 0; safe_word = λ a. some a }

find_entry_test :
    find_entry memory 4096 76 65808 65536 0
    ≡ some (record {
      function_start = 65792;
      function_length = 64;
      encoding = 0x04000000;
      personality_function = 0;
      lsda = 0;
    })
unfolding find_entry search_first_level bisect search_page search_compressed_page encoding_at
    find_personality little_endian
find_entry_test = refl

find_entry-HasTarget_example :
    HasTarget 65808 (find_entry memory 4096 76 65808 65536 0)
    × ((offset_at : ℕ → ℕ) (target count : ℕ) → binary_search offset_at target count ≢ none)
unfolding little_endian
find_entry-HasTarget_example =
    find_entry-HasTarget memory 4096 65808 65536 0 (omega arith) (omega arith) (omega arith) 76
      (omega arith)

abbrev frame : Frame
frame = record { sp = 8192; fp = 8256; lr = 4660 }

decode-unwind_row_example :
    (registers_of (decode (λ a. some a) (λ a. none) arm64 0x04000000 frame)
      ≡ some (stripped arm64 8264, 8256 + 16, 8256))
    × (unwind_row memory arm64 0 frame (frame_row arm64)
        ≡ done (record { return_address = 8264; stack_pointer = 8256 + 16; frame_pointer = 8256 }))
decode-unwind_row_example =
    decode-unwind_row memory (λ a. none) 0 arm64 0x04000000 frame 8264 8256 refl (omega arith)
      (omega arith) refl refl
