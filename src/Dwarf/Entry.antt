-- ===== src/Dwarf/Entry.antt =====
-- `parseCIE` and `parseFDE`.
use kscrash.Prelude.{
  ℕ, zero, suc, ◌+◌, ◌-◌, ◌%◌, Bool, true, false, ◌&&◌, ◌||◌, not, Option, none, some, ◌==◌, ltb,
  if◌then◌else◌,
}
use kscrash.Dwarf.Reader.{
  word_mod, wrap, Memory, Reader, reader_at, has_data, move_on, read_unsigned, read_uleb128,
  read_sleb128, read_encoded_pointer,
}

-- `augmentation` is the address of the string.
pub record Cie : Type 0 where
  pub version : ℕ
  pub augmentation : ℕ
  pub code_alignment_factor : ℕ
  pub data_alignment_factor : ℕ
  pub return_address_register : ℕ
  pub fde_pointer_encoding : ℕ
  pub lsda_encoding : ℕ
  pub has_augmentation : Bool
  pub initial_instructions : ℕ
  pub initial_instructions_len : ℕ

pub record Fde : Type 0 where
  pub pc_start : ℕ
  pub pc_range : ℕ
  pub instructions : ℕ
  pub instructions_len : ℕ
  pub lsda : ℕ

-- What the loop over the augmentation string changes.
pub record Encodings : Type 0 where
  pub reader : Reader
  pub lsda_encoding : ℕ
  pub fde_pointer_encoding : ℕ

-- `(size_t)(reader.end - reader.data)`.
abbrev pub remaining : Reader → ℕ
remaining r = wrap (r.limit + (word_mod - r.position))

module _ (memory : Memory) where
  open memory use {byte}

  -- The loop that looks for the end of the augmentation string.
  unfoldable pub skip_string : ℕ → Reader → Reader
  skip_string zero r = r
  skip_string (suc fuel) r =
      let rest = skip_string fuel (record r { position = suc (r.position) }) in
      if has_data r 1 && not (byte (r.position) == 0) then rest else r

  -- `if (readerHasData(&reader, 1)) reader.data++;`
  abbrev pub skip_null : Reader → Reader
  skip_null r = if has_data r 1 then record r { position = suc (r.position) } else r

  -- One character of the augmentation string: 'L' is 76, 'P' 80 and 'R' 82.
  unfoldable pub read_augmentation : ℕ → Encodings → Encodings
  read_augmentation c e =
      if c == 76
      then (let (encoding, r) = read_unsigned memory 1 (e.reader) in
          record e { reader = r; lsda_encoding = encoding })
      else if c == 80
      then (let (encoding, r) = read_unsigned memory 1 (e.reader) in
          record e { reader = (read_encoded_pointer memory encoding 0 r).1 })
      else if c == 82
      then (let (encoding, r) = read_unsigned memory 1 (e.reader) in
          record e { reader = r; fde_pointer_encoding = encoding })
      else e

  -- The loop over the string, whose length is fuel enough: where the string has no end in the
  -- entry no data is left behind it, and the loop is not entered.
  unfoldable pub read_augmentations : ℕ → ℕ → ℕ → Encodings → Encodings
  read_augmentations zero aug aug_end e = e
  read_augmentations (suc fuel) aug aug_end e =
      let rest = read_augmentations fuel (suc aug) aug_end (read_augmentation (byte aug) e) in
      if not (byte aug == 0) && ltb (e.reader.position) aug_end then rest else e

  -- The part of `parseCIE` behind the return address register. 122 is 'z'.
  unfoldable pub parse_cie_augmentation : ℕ → Cie → Reader → Cie
  parse_cie_augmentation string_length c r =
      let (aug_len, r') = read_uleb128 memory r in
      let aug_end = wrap (r'.position + aug_len) in
      let e =
        read_augmentations string_length (suc (c.augmentation)) aug_end
          (record { reader = r'; lsda_encoding = 0xFF; fde_pointer_encoding = 0 }) in
      let last = record r { position = aug_end } in
      if byte (c.augmentation) == 122
      then record c {
        has_augmentation = true;
        lsda_encoding = e.lsda_encoding;
        fde_pointer_encoding = e.fde_pointer_encoding;
        initial_instructions = aug_end;
        initial_instructions_len = remaining last;
      }
      else record c { initial_instructions = r.position; initial_instructions_len = remaining r }

  -- `parseCIE`. 0xFF is DW_EH_PE_omit, and 0 DW_EH_PE_absptr.
  unfoldable pub parse_cie : ℕ → ℕ → Option Cie
  parse_cie cie_data cie_size =
      let (version, r0) = read_unsigned memory 1 (reader_at cie_data cie_size) in
      let r1 = skip_string cie_size r0 in
      let (code_alignment_factor, r2) = read_uleb128 memory (skip_null r1) in
      let (data_alignment_factor, r3) = read_sleb128 memory r2 in
      let (return_address_register, r4) =
        if version == 1 then read_unsigned memory 1 r3 else read_uleb128 memory r3 in
      if version == 1 || version == 3
      then some (
          parse_cie_augmentation (r1.position - r0.position)
            (record {
              version = version;
              augmentation = r0.position;
              code_alignment_factor = code_alignment_factor;
              data_alignment_factor = data_alignment_factor;
              return_address_register = return_address_register;
              fde_pointer_encoding = 0;
              lsda_encoding = 0xFF;
              has_augmentation = false;
              initial_instructions = 0;
              initial_instructions_len = 0;
            })
            r4)
      else none

  -- The range of an FDE, in the format of its start. A signed one of 2 or 4 bytes is read as an
  -- unsigned one.
  unfoldable pub read_range : ℕ → Reader → ℕ × Reader
  read_range format r =
      if format == 0x00 || format == 0x04 || format == 0x0C
      then read_unsigned memory 8 r
      else if format == 0x02 || format == 0x0A
      then read_unsigned memory 2 r
      else if format == 0x03 || format == 0x0B
      then read_unsigned memory 4 r
      else read_uleb128 memory r

  -- The augmentation data of an FDE: the LSDA, and the reader behind the data.
  unfoldable pub read_lsda : Cie → Reader → ℕ × Reader
  read_lsda cie r =
      let (aug_len, r') = read_uleb128 memory r in
      let (lsda, r'') = read_encoded_pointer memory (cie.lsda_encoding) (r'.position) r' in
      if cie.has_augmentation
      then (if cie.lsda_encoding == 0xFF then 0 else lsda, move_on aug_len r')
      else (0, r)

  -- `parseFDE`, which never fails.
  unfoldable pub parse_fde : ℕ → ℕ → Cie → ℕ → Fde
  parse_fde fde_data fde_size cie fde_address =
      let (pc_start, r1) =
        read_encoded_pointer memory (cie.fde_pointer_encoding) fde_address
          (reader_at fde_data fde_size) in
      let (pc_range, r2) = read_range (cie.fde_pointer_encoding % 16) r1 in
      let (lsda, r3) = read_lsda cie r2 in
      record {
        pc_start = pc_start;
        pc_range = pc_range;
        instructions = r3.position;
        instructions_len = remaining r3;
        lsda = lsda;
      }
