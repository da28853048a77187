-- ===== src/Dwarf/Search.antt =====
-- `ksdwarf_findFDE`.
pub mod Sound
use kscrash.Prelude.{
  ℕ, zero, suc, ◌+◌, ◌-◌, ◌%◌, Bool, true, false, ◌&&◌, ◌||◌, not, Option, none, some, ◌==◌, ltb,
  leb, if◌then◌else◌,
}
use kscrash.Dwarf.Reader.{
  word_mod, wrap, Memory, Reader, reader_at, has_data, move_on, sign_extend, little_endian,
  read_unsigned, read_signed, read_uleb128, read_sleb128, read_encoded_pointer,
}
use kscrash.Dwarf.Entry.{Cie, Fde, Encodings, remaining, parse_cie, parse_fde}

-- An entry of the section, whose length field has been read: the bytes from `start` up to `stop`.
pub record EntryBounds : Type 0 where
  pub start : ℕ
  pub stop : ℕ
  pub is_64bit : Bool

-- The length field of a CIE, and where its ID stands.
pub record CieHead : Type 0 where
  pub cie_length : ℕ
  pub cie_id_field : ℕ
  pub cie_is_64bit : Bool

-- What the parameters `outFDE` to `outIs64bit` give back.
pub record Found : Type 0 where
  pub fde : ℕ
  pub fde_size : ℕ
  pub cie : ℕ
  pub cie_size : ℕ
  pub is_64bit : Bool

pub data Search : Type 0 where
  found : Found → Search
  absent : Search
  unfinished : Search

-- The size of a CIE ID, and of a CIE pointer.
abbrev pub id_size : Bool → ℕ
id_size is_64bit = if is_64bit then 8 else 4

module _ (memory : Memory) where
  -- `none` for what ends the loop: an entry of no length, or one that is longer than the section.
  unfoldable pub read_entry : ℕ → ℕ → Option EntryBounds
  read_entry end_ ptr =
      let length = little_endian memory 4 ptr in
      let actual_length = little_endian memory 8 (ptr + 4) in
      if length == 0
      then none
      else if length == 0xFFFFFFFF
      then (if ltb end_ (ptr + 12)
          then none
          else if ltb (end_ - (ptr + 12)) actual_length
          then none
          else some (record { start = ptr + 12; stop = ptr + 12 + actual_length; is_64bit = true }))
      else if ltb (end_ - (ptr + 4)) length
      then none
      else some (record { start = ptr + 4; stop = ptr + 4 + length; is_64bit = false })

  -- The length of the CIE at `cieLengthField`.
  unfoldable pub read_cie_head : ℕ → ℕ → Option CieHead
  read_cie_head end_ field =
      if little_endian memory 4 field == 0xFFFFFFFF
      then (if ltb end_ (field + 12)
          then none
          else some (record {
            cie_length = little_endian memory 8 (field + 4);
            cie_id_field = field + 12;
            cie_is_64bit = true;
          }))
      else some (record {
        cie_length = little_endian memory 4 field;
        cie_id_field = field + 4;
        cie_is_64bit = false;
      })

  -- Whether `targetPC` is in the range of the FDE.
  abbrev pub covers : ℕ → Fde → Bool
  covers target_pc fde =
      leb (fde.pc_start) target_pc && ltb target_pc (wrap (fde.pc_start + fde.pc_range))

  abbrev pub fde_of : EntryBounds → Cie → Fde
  fde_of e cie =
      let id = id_size (e.is_64bit) in
      parse_fde memory (e.start + id) (wrap (e.stop + (word_mod - (e.start + id)))) cie (e.start)

  abbrev pub match_fde : ℕ → EntryBounds → CieHead → Option Cie → Option Found
  match_fde target_pc e head none = none
  match_fde target_pc e head (some cie) =
      if covers target_pc (fde_of e cie)
      then some (record {
        fde = e.start;
        fde_size = e.stop - e.start;
        cie = head.cie_id_field;
        cie_size = head.cie_length;
        is_64bit = e.is_64bit;
      })
      else none

  abbrev pub match_cie : ℕ → ℕ → EntryBounds → Option CieHead → Option Found
  match_cie end_ target_pc e none = none
  match_cie end_ target_pc e (some head) =
      let id = id_size (head.cie_is_64bit) in
      let data_start = head.cie_id_field + id in
      let data_size = head.cie_length - id in
      if not (id == id_size (e.is_64bit))
        || ltb (head.cie_length) id
        || ltb end_ (wrap (data_start + data_size))
      then none
      else match_fde target_pc e head (parse_cie memory data_start data_size)

  -- The rest of the loop's body. `none` goes on with the next entry.
  unfoldable pub match_entry : ℕ → ℕ → ℕ → EntryBounds → Option Found
  match_entry eh_frame end_ target_pc e =
      let cie_pointer = little_endian memory (id_size (e.is_64bit)) (e.start) in
      let field = wrap (e.start + (word_mod - cie_pointer)) in
      if cie_pointer == 0 || ltb field eh_frame
      then none
      else match_cie end_ target_pc e (read_cie_head end_ field)

  abbrev pub found_or : Option Found → Search → Search
  found_or none rest = rest
  found_or (some f) rest = found f

  -- What follows the length field of an entry, where `next` is the rest of the loop.
  abbrev pub visit : (EntryBounds → Option Found) → (ℕ → Search) → Option EntryBounds → Search
  visit test next none = absent
  visit test next (some e) = found_or (test e) (next (e.stop))

  -- The loop over the entries.
  unfoldable pub search : ℕ → ℕ → ℕ → ℕ → ℕ → Search
  search zero eh_frame end_ target_pc ptr = unfinished
  search (suc fuel) eh_frame end_ target_pc ptr =
      let body =
        visit (match_entry eh_frame end_ target_pc) (search fuel eh_frame end_ target_pc) in
      if ltb (ptr + 4) end_ then body (read_entry end_ ptr) else absent

  -- `ksdwarf_findFDE` of a section that does not reach past the end of the memory. Each entry has
  -- a length field of four bytes at least.
  unfoldable pub find_fde : ℕ → ℕ → ℕ → Search
  find_fde eh_frame eh_frame_size target_pc =
      if eh_frame == 0 || eh_frame_size == 0
      then absent
      else search (suc eh_frame_size) eh_frame (eh_frame + eh_frame_size) target_pc eh_frame
