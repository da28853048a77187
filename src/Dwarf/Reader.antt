-- ===== src/Dwarf/Reader.antt =====
-- `KSDwarfReader` and the functions that read through it, on a 64-bit little-endian machine.
use kscrash.Prelude.{
  ℕ, zero, suc, ◌+◌, ◌-◌, ◌*◌, ◌/◌, ◌%◌, ◌^◌, bit_or, Bool, ◌&&◌, Option, none, some, ◌==◌, ltb,
  leb, if◌then◌else◌,
}

-- A word of 64 bits stands for a signed number by its bit pattern.
abbrev pub word_mod : ℕ
word_mod = 18_446_744_073_709_551_616

abbrev pub wrap : ℕ → ℕ
wrap n = n % word_mod

-- `byte a` is what a load of the byte at `a` gives, and `safe_word a` what `ksmem_copySafely` of a
-- word does, which may fail.
pub record Memory : Type 0 where
  pub byte : ℕ → ℕ
  pub safe_word : ℕ → Option ℕ

-- `position` and `limit` are the fields `data` and `end`.
pub record Reader : Type 0 where
  pub position : ℕ
  pub limit : ℕ
  pub base_address : ℕ

abbrev pub reader_at : ℕ → ℕ → Reader
reader_at start size = record { position = start; limit = wrap (start + size); base_address = 0 }

abbrev pub has_data : Reader → ℕ → Bool
has_data r bytes = leb (r.position + bytes) (r.limit)

-- `reader->data += count;`
abbrev pub move_on : ℕ → Reader → Reader
move_on count r = record r { position = wrap (r.position + count) }

-- The conversion of an `int16_t`, `int32_t` or `int8_t`, at its bit pattern, to 64 bits.
abbrev pub sign_extend : ℕ → ℕ → ℕ
sign_extend bits w = if ltb w (2 ^ (bits - 1)) then w else w + (word_mod - 2 ^ bits)

-- How the loop over the groups of seven bits ends: at the last group, with the value, that byte
-- and the shift; or at the end of the data.
pub data Groups : Type 0 where
  ended : ℕ → ℕ → ℕ → Reader → Groups
  truncated : Reader → Groups

module _ (memory : Memory) where
  open memory use {byte}

  unfoldable pub little_endian : ℕ → ℕ → ℕ
  little_endian zero address = 0
  little_endian (suc n) address = byte address + 256 * little_endian n (suc address)

  -- `readU8`, `readU16`, `readU32` and `readU64` at 1, 2, 4 and 8 bytes.
  unfoldable pub read_unsigned : ℕ → Reader → ℕ × Reader
  read_unsigned size r =
      if has_data r size
      then (little_endian size (r.position), record r { position = r.position + size })
      else (0, r)

  -- `readS16`, `readS32` and `readS64`.
  unfoldable pub read_signed : ℕ → Reader → ℕ × Reader
  read_signed size r = let (value, r') = read_unsigned size r in (sign_extend (8 * size) value, r')

  -- The loop of `readULEB128` and `readSLEB128`. Ten groups bring the shift to 70.
  unfoldable pub leb_groups : ℕ → ℕ → ℕ → Reader → Groups
  leb_groups zero shift result r = truncated r
  leb_groups (suc rounds) shift result r =
      let b = byte (r.position) in
      let r' = record r { position = suc (r.position) } in
      let value = bit_or result (wrap (b % 128 * 2 ^ shift)) in
      let later = leb_groups rounds (shift + 7) value r' in
      if has_data r 1
      then (if leb 128 b && ltb (shift + 7) 64 then later else ended value b (shift + 7) r')
      else truncated r

  abbrev pub uleb_value : Groups → ℕ × Reader
  uleb_value (ended value last shift r) = (value, r)
  uleb_value (truncated r) = (0, r)

  -- `readULEB128`.
  unfoldable pub read_uleb128 : Reader → ℕ × Reader
  read_uleb128 r = uleb_value (leb_groups 10 0 0 r)

  -- `last & 0x40`.
  abbrev pub has_sign : ℕ → Bool
  has_sign last = leb 64 (last % 128)

  abbrev pub sleb_value : Groups → ℕ × Reader
  sleb_value (ended value last shift r) =
      (if ltb shift 64 && has_sign last then bit_or value (word_mod - 2 ^ shift) else value, r)
  sleb_value (truncated r) = (0, r)

  -- `readSLEB128`.
  unfoldable pub read_sleb128 : Reader → ℕ × Reader
  read_sleb128 r = sleb_value (leb_groups 10 0 0 r)

  -- The base value of an encoded pointer, by the low half of the encoding; `none` for a format
  -- that is not known.
  unfoldable pub read_format : ℕ → Reader → Option (ℕ × Reader)
  read_format format r =
      if format == 0x00
      then some (read_unsigned 8 r)
      else if format == 0x01
      then some (read_uleb128 r)
      else if format == 0x02
      then some (read_unsigned 2 r)
      else if format == 0x03
      then some (read_unsigned 4 r)
      else if format == 0x04
      then some (read_unsigned 8 r)
      else if format == 0x09
      then some (read_sleb128 r)
      else if format == 0x0A
      then some (read_signed 2 r)
      else if format == 0x0B
      then some (read_signed 4 r)
      else if format == 0x0C
      then some (read_signed 8 r)
      else none

  -- The modifier: DW_EH_PE_pcrel is 0x10 and DW_EH_PE_datarel 0x30.
  abbrev pub apply_modifier : ℕ → ℕ → ℕ → Reader → ℕ → ℕ
  apply_modifier modifier start pc_rel_base r value =
      if modifier == 0x10
      then (if pc_rel_base == 0 then wrap (value + start) else wrap (value + pc_rel_base))
      else if modifier == 0x30
      then wrap (value + r.base_address)
      else value

  abbrev pub value_or : Option ℕ → ℕ → ℕ
  value_or none value = value
  value_or (some indirect) value = indirect

  abbrev pub relocate : ℕ → ℕ → Reader → Option (ℕ × Reader) → ℕ × Reader
  relocate encoding pc_rel_base r none = (0, r)
  relocate encoding pc_rel_base r (some (value, r')) =
      let result = apply_modifier (encoding / 16 % 8 * 16) (r.position) pc_rel_base r value in
      (if leb 0x80 encoding then value_or (memory.safe_word result) result else result, r')

  -- `readEncodedPointer`. 0xFF is DW_EH_PE_omit, and 0x80 DW_EH_PE_indirect.
  unfoldable pub read_encoded_pointer : ℕ → ℕ → Reader → ℕ × Reader
  read_encoded_pointer encoding pc_rel_base r =
      if encoding == 0xFF
      then (0, r)
      else relocate encoding pc_rel_base r (read_format (encoding % 16) r)
