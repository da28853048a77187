-- ===== src/Dwarf/Tests.antt =====
-- Numbers, expressions, a section with one FDE, and instructions, in a memory that is given by its bytes.
use kscrash.Prelude.{
  zero, suc, ◌<◌, ap, inl, inr, Bool-cases, ℕ, ◌+◌, ◌-◌, ◌≡◌, ◌≢◌, refl, false, none, some, length,
  List, [], ◌∷◌, get_or, arith,
}
use kscrash.Dwarf.Reader.{
  word_mod, Memory, Reader, has_data, read_uleb128, read_sleb128, read_unsigned, little_endian,
  leb_groups, read_encoded_pointer, read_format,
}
use kscrash.Dwarf.Leb.{read_uleb128-byte, encode_uleb128, read_uleb128-encode}
use kscrash.Dwarf.Entry.{
  Cie, parse_cie, parse_fde, read_lsda, read_range, parse_cie_augmentation, skip_string,
}
use kscrash.Dwarf.Registers.{arm64, x86_64, Frame, get_register_value}
use kscrash.Dwarf.Expression.{evaluated, evaluate_dwarf_expression}
use kscrash.Dwarf.Expression
use kscrash.Dwarf.Expression.Ends.{evaluate_dwarf_expression-returns}
use kscrash.Dwarf.Compile.{
  Expr, literal, based, sum, load, code, slots, denote, evaluate_dwarf_expression-code,
}
use kscrash.Dwarf.Search.Sound.{SearchIs, find_fde-SearchIs}
use kscrash.Dwarf.Row.{zero_row}
use kscrash.Dwarf.Cfi.{State, instruction, execute_cfi_instructions}
use kscrash.Dwarf.Cfi
use kscrash.Dwarf.Cfi.Valid.{IsState, instruction-IsState}
use kscrash.Dwarf.Cfi.Ends.{SmallLengths, execute_cfi_instructions-returns}
use kscrash.Dwarf.Cfi.Loops.{execute_cfi_instructions-jump_back}
use kscrash.Dwarf.Search.{Found, found, find_fde, search, read_entry, match_entry, read_cie_head}

-- The bytes stand from 4096 on. A word that is read safely has its address as its value.
abbrev memory_of : List ℕ → Memory
memory_of bytes = record { byte = λ a. get_or bytes (a - 4096) 0; safe_word = λ a. some a }

abbrev reader_of : ℕ → Reader
reader_of size = record { position = 4096; limit = 4096 + size; base_address = 0 }

read_uleb128-encode_example :
    read_uleb128 (memory_of (0xE5 ∷ 0x8E ∷ 0x26 ∷ [])) (reader_of 3)
    ≡ (624_485, record (reader_of 3) { position = 4099 })
unfolding encode_uleb128
read_uleb128-encode_example =
    read_uleb128-encode (memory_of (0xE5 ∷ 0x8E ∷ 0x26 ∷ [])) 624_485 (reader_of 3) (omega arith)
      (refl, (refl, (refl, tt))) (omega arith)

abbrev frame : Frame
frame = record { sp = 8192; fp = 8256; lr = 4660 }

-- The word at `sp + 16 + 8`.
abbrev saved : Expr
saved = load (sum (based 31 16) (literal 8))

abbrev saved_code : List ℕ
saved_code = 0x8F ∷ 16 ∷ 0x38 ∷ 0x22 ∷ 0x06 ∷ []

evaluate_dwarf_expression-code_example :
    evaluate_dwarf_expression (memory_of saved_code) arm64 0 frame 4096 5 ≡ evaluated 8216 false
unfolding code slots denote get_register_value
evaluate_dwarf_expression-code_example =
    evaluate_dwarf_expression-code (memory_of saved_code) arm64 0 frame saved 4096
      ((omega arith, omega arith), omega arith) (omega arith) (omega arith) (omega arith)
      (refl, (refl, (refl, (refl, (refl, tt)))))

evaluate_dwarf_expression-returns_example :
    evaluate_dwarf_expression (memory_of saved_code) x86_64 0 frame 4096 5 ≢ Expression.unfinished
evaluate_dwarf_expression-returns_example =
    evaluate_dwarf_expression-returns (memory_of saved_code) x86_64 0 frame 4096 5

-- A CIE for arm64, whose CFA is the stack pointer, and an FDE for the 64 bytes from 65536 on,
-- whose CFA is 16 above it, with the frame and the return address at 16 and 8 below.
abbrev section_bytes : List ℕ
section_bytes =
    12 ∷ 0 ∷ 0 ∷ 0 ∷ 0 ∷ 0 ∷ 0 ∷ 0 ∷ 1 ∷ 0 ∷ 4 ∷ 0x78 ∷ 30 ∷ 0x0C ∷ 31 ∷ 0 ∷ 28 ∷ 0 ∷ 0 ∷ 0 ∷ 20 ∷ 0
    ∷ 0 ∷ 0 ∷ 0 ∷ 0 ∷ 1 ∷ 0 ∷ 0 ∷ 0 ∷ 0 ∷ 0 ∷ 64 ∷ 0 ∷ 0 ∷ 0 ∷ 0 ∷ 0 ∷ 0 ∷ 0 ∷ 0x0E ∷ 16 ∷ 0x9D ∷ 2
    ∷ 0x9E ∷ 1 ∷ 0 ∷ 0 ∷ []

abbrev section_found : Found
section_found = record { fde = 4116; fde_size = 28; cie = 4100; cie_size = 12; is_64bit = false }

find_fde_test : find_fde (memory_of section_bytes) 4096 48 65552 ≡ found section_found
unfolding find_fde search read_entry match_entry read_cie_head parse_cie parse_fde read_lsda
    read_range parse_cie_augmentation skip_string read_uleb128 read_sleb128 read_unsigned
    little_endian leb_groups read_encoded_pointer read_format
find_fde_test = refl

find_fde-SearchIs_example :
    SearchIs
      (memory_of section_bytes)
      4096
      4144
      65552
      (find_fde (memory_of section_bytes) 4096 48 65552)
find_fde-SearchIs_example = find_fde-SearchIs (memory_of section_bytes) 4096 48 65552

abbrev section_cie : Cie
section_cie = record {
  version = 1;
  augmentation = 4105;
  code_alignment_factor = 4;
  data_alignment_factor = word_mod - 8;
  return_address_register = 30;
  fde_pointer_encoding = 0;
  lsda_encoding = 0xFF;
  has_augmentation = false;
  initial_instructions = 4109;
  initial_instructions_len = 3;
}

-- The locals of a run of bytes, with a row of rules that are undefined.
abbrev start_of : List ℕ → State
start_of bytes = record {
  reader = reader_of (length bytes);
  current_pc = 65536;
  row = zero_row;
  state_stack = [];
}

-- DW_CFA_undefined of a register that there is no rule for.
instruction-IsState_example :
    IsState (instruction (memory_of (0x07 ∷ 64 ∷ [])) section_cie none 0x07 (start_of (64 ∷ [])))
instruction-IsState_example =
    instruction-IsState (memory_of (0x07 ∷ 64 ∷ [])) section_cie none 0x07 (start_of (64 ∷ []))
      (refl, (tt, omega arith))

-- DW_CFA_def_cfa_offset, and DW_CFA_def_cfa_expression of one byte.
abbrev small_bytes : List ℕ
small_bytes = 0x0E ∷ 16 ∷ 0x0F ∷ 1 ∷ 31 ∷ []

small_byte : (i : ℕ) → get_or small_bytes i 0 < 128
small_byte zero = omega arith
small_byte (suc zero) = omega arith
small_byte (suc (suc zero)) = omega arith
small_byte (suc (suc (suc zero))) = omega arith
small_byte (suc (suc (suc (suc zero)))) = omega arith
small_byte (suc (suc (suc (suc (suc i))))) = omega arith

small_bytes-SmallLengths : SmallLengths (memory_of small_bytes) 4096 4101
unfolding read_uleb128 leb_groups
small_bytes-SmallLengths r same above inside =
    let memory = memory_of small_bytes in
    elim (Bool-cases (has_data r 1)) [
      | inl more ↦
          let byte = get_or small_bytes (r.position - 4096) 0 in
          let read =
            read_uleb128-byte memory byte r (small_byte (r.position - 4096)) refl
              (ground (arith, more)) in
          omega (
            arith,
            inside,
            small_byte (r.position - 4096),
            ap (λ (x : ℕ × Reader). x.0) read,
            ap (λ (x : ℕ × Reader). x.1.position) read,
          )
      | inr at_end ↦ rw at_end (omega (arith, inside))
    ]

execute_cfi_instructions-returns_example :
    execute_cfi_instructions (memory_of small_bytes) section_cie none 6 4096 5 65536 65540 zero_row
    ≢ Cfi.unfinished
execute_cfi_instructions-returns_example =
    execute_cfi_instructions-returns (memory_of small_bytes) section_cie none 4096 5 65536 65540
      zero_row small_bytes-SmallLengths

abbrev jump_back_bytes : List ℕ
jump_back_bytes =
    0x0F ∷ 0xF5 ∷ 0xFF ∷ 0xFF ∷ 0xFF ∷ 0xFF ∷ 0xFF ∷ 0xFF ∷ 0xFF ∷ 0xFF ∷ 0x01 ∷ 0x0A ∷ []

execute_cfi_instructions-jump_back_example :
    execute_cfi_instructions
      (memory_of jump_back_bytes)
      section_cie
      none
      100
      4096
      12
      65536
      65540
      zero_row
    ≡ Cfi.unfinished
unfolding encode_uleb128
execute_cfi_instructions-jump_back_example =
    execute_cfi_instructions-jump_back (memory_of jump_back_bytes) section_cie none 100 4096 12
      65536 65540 zero_row
      ((refl, (refl, (refl, (refl, (refl, (refl, (refl, (refl, (refl, (refl, (refl, tt))))))))))))
      (omega arith) (omega arith) (omega arith)
