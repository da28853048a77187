-- ===== src/Dwarf/Search/Sound.antt =====
-- What `ksdwarf_findFDE` finds, and that it comes to an end.
use kscrash.Prelude.{
  ℕ, zero, suc, ◌+◌, ◌-◌, ◌≤◌, ◌<◌, ◌≡◌, refl, sym, ap, subst, Bool, true, false, ◌||◌, not, Option,
  none, some, arith, ◌==◌, ltb, if-cases, if-both, ltb→lt,
}
use kscrash.Dwarf.Reader.{word_mod, wrap, Memory, little_endian}
use kscrash.Dwarf.Entry.{Cie, parse_cie, parse_fde}
use kscrash.Dwarf.Search.{
  EntryBounds, CieHead, Found, Search, found, absent, unfinished, id_size, read_entry,
  read_cie_head, covers, fde_of, match_fde, match_cie, match_entry, found_or, visit, search,
  find_fde,
}

-- Both entries lie in the section, and the program counter in the range of the FDE as it is read
-- with the CIE.
pub record IsFdeOf (memory : Memory) (eh_frame end_ target_pc : ℕ) (f : Found) : Type 0 where
  pub entry_start : eh_frame ≤ f.fde
  pub entry_end : f.fde + f.fde_size ≤ end_
  pub cie_start : eh_frame < f.cie
  pub cie_id : id_size (f.is_64bit) ≤ f.cie_size
  pub cie_end : wrap (f.cie + f.cie_size) ≤ end_
  pub entry_cie : Cie
  pub cie_parsed :
      parse_cie memory (f.cie + id_size (f.is_64bit)) (f.cie_size - id_size (f.is_64bit))
      ≡ some entry_cie
  pub pc_in_range :
      covers memory target_pc (
        parse_fde memory
          (f.fde + id_size (f.is_64bit))
          (wrap (f.fde + f.fde_size + (word_mod - (f.fde + id_size (f.is_64bit)))))
          entry_cie
          (f.fde))
      ≡ true

module _ (memory : Memory) where
  -- An entry, read at `ptr`, that lies in the section.
  abbrev Inside : ℕ → ℕ → Option EntryBounds → Type 0
  Inside end_ ptr none = Unit
  Inside end_ ptr (some e) = (ptr + 4 ≤ e.start) × ((e.start ≤ e.stop) × (e.stop ≤ end_))

  read_entry-Inside : (end_ ptr : ℕ) → ptr + 4 < end_ → Inside end_ ptr (read_entry memory end_ ptr)
  unfolding read_entry
  read_entry-Inside end_ ptr h =
      let long = little_endian memory 8 (ptr + 4) in
      let length = little_endian memory 4 ptr in
      if-both P (length == 0) tt (
        if-both P (length == 0xFFFFFFFF)
          (if-cases P (ltb end_ (ptr + 12)) (λ no_room. tt)
            (λ room.
              if-cases P (ltb (end_ - (ptr + 12)) long) (λ too_long. tt)
                (λ fits. (omega arith, (omega arith, ground (arith, room, fits))))))
          (if-cases P (ltb (end_ - (ptr + 4)) length) (λ too_long. tt)
            (λ fits. (omega arith, (omega arith, ground (arith, h, fits))))))
    where
      P : Option EntryBounds → Type 0
      P = Inside end_ ptr

  abbrev FoundIs : ℕ → ℕ → ℕ → Option Found → Type 0
  FoundIs eh_frame end_ target_pc none = Unit
  FoundIs eh_frame end_ target_pc (some f) = IsFdeOf memory eh_frame end_ target_pc f

  abbrev HeadIs : ℕ → Option CieHead → Type 0
  HeadIs field none = Unit
  HeadIs field (some head) = field < head.cie_id_field

  read_cie_head-HeadIs : (end_ field : ℕ) → HeadIs field (read_cie_head memory end_ field)
  unfolding read_cie_head
  read_cie_head-HeadIs end_ field =
      if-both (HeadIs field) (little_endian memory 4 field == 0xFFFFFFFF)
        (if-both (HeadIs field) (ltb end_ (field + 12)) tt (omega arith)) (omega arith)

  match_fde-FoundIs :
      (eh_frame end_ target_pc : ℕ) (e : EntryBounds) (head : CieHead) (cie : Option Cie)
      → eh_frame ≤ e.start
      → e.start ≤ e.stop
      → e.stop ≤ end_
      → eh_frame < head.cie_id_field
      → head.cie_is_64bit ≡ e.is_64bit
      → id_size (e.is_64bit) ≤ head.cie_length
      → wrap (head.cie_id_field + head.cie_length) ≤ end_
      → parse_cie memory
          (head.cie_id_field + id_size (e.is_64bit))
          (head.cie_length - id_size (e.is_64bit))
        ≡ cie
      → FoundIs eh_frame end_ target_pc (match_fde memory target_pc e head cie)
  match_fde-FoundIs eh_frame end_ target_pc e head none a b c d i j l p = tt
  match_fde-FoundIs eh_frame end_ target_pc e head (some cie) a b c d i j l p =
      if-cases (FoundIs eh_frame end_ target_pc) (covers memory target_pc (fde_of memory e cie))
        (λ yes. record {
          entry_start = a;
          entry_end = omega (arith, b, c);
          cie_start = d;
          cie_id = j;
          cie_end = l;
          entry_cie = cie;
          cie_parsed = p;
          pc_in_range =
              subst
                (λ stop.
                  covers memory target_pc (
                    parse_fde memory (e.start + id_size (e.is_64bit))
                      (wrap (stop + (word_mod - (e.start + id_size (e.is_64bit))))) cie (e.start))
                  ≡ true)
                (omega (arith, b)) yes;
        })
        (λ no. tt)

  same_size : (a b : Bool) → (id_size a == id_size b) ≡ true → a ≡ b
  same_size true true h = refl
  same_size false false h = refl
  same_size true false h = absurd (cc h)
  same_size false true h = absurd (cc h)

  match_cie-FoundIs :
      (eh_frame end_ target_pc : ℕ) (e : EntryBounds) (field : ℕ) (o : Option CieHead)
      → eh_frame ≤ field
      → eh_frame ≤ e.start
      → e.start ≤ e.stop
      → e.stop ≤ end_
      → HeadIs field o
      → FoundIs eh_frame end_ target_pc (match_cie memory end_ target_pc e o)
  match_cie-FoundIs eh_frame end_ target_pc e field none a b c d h = tt
  match_cie-FoundIs eh_frame end_ target_pc e field (some head) a b c d h =
      if-cases P unfit (λ bad. tt)
        (λ good.
          let sizes = same_size (head.cie_is_64bit) (e.is_64bit) (ground (arith, good)) in
          let equal = ap id_size sizes in
          let place =
            ap (λ n. parse_cie memory (head.cie_id_field + n) (head.cie_length - n)) (sym equal) in
          match_fde-FoundIs eh_frame end_ target_pc e head
            (parse_cie memory (head.cie_id_field + id) (head.cie_length - id)) b c d
            (omega (arith, a, h)) sizes (ground (arith, good, equal))
            (inside equal (ground (arith, good)) (ground (arith, good))) place)
    where
      P : Option Found → Type 0
      P = FoundIs eh_frame end_ target_pc

      id : ℕ
      id = id_size (head.cie_is_64bit)

      unfit : Bool
      unfit =
          not (id == id_size (e.is_64bit))
          || ltb (head.cie_length) id
          || ltb end_ (wrap (head.cie_id_field + id + (head.cie_length - id)))

      inside :
          id ≡ id_size (e.is_64bit)
          → id ≤ head.cie_length
          → wrap (head.cie_id_field + id + (head.cie_length - id)) ≤ end_
          → wrap (head.cie_id_field + head.cie_length) ≤ end_
      inside equal long h = subst (λ n. wrap n ≤ end_) (omega (arith, long)) h

  match_entry-FoundIs :
      (eh_frame end_ target_pc : ℕ) (e : EntryBounds)
      → eh_frame ≤ e.start
      → e.start ≤ e.stop
      → e.stop ≤ end_
      → FoundIs eh_frame end_ target_pc (match_entry memory eh_frame end_ target_pc e)
  unfolding match_entry
  match_entry-FoundIs eh_frame end_ target_pc e a b c =
      let pointer = little_endian memory (id_size (e.is_64bit)) (e.start) in
      let field = wrap (e.start + (word_mod - pointer)) in
      if-cases (FoundIs eh_frame end_ target_pc) (pointer == 0 || ltb field eh_frame)
        (λ skipped. tt)
        (λ good.
          match_cie-FoundIs eh_frame end_ target_pc e field (read_cie_head memory end_ field)
            (ground (arith, good)) a b c (read_cie_head-HeadIs end_ field))

  -- What a search gives: an FDE, or none, but never a lack of fuel.
  abbrev pub SearchIs : ℕ → ℕ → ℕ → Search → Type 0
  SearchIs eh_frame end_ target_pc (found f) = IsFdeOf memory eh_frame end_ target_pc f
  SearchIs eh_frame end_ target_pc absent = Unit
  SearchIs eh_frame end_ target_pc unfinished = ⊥

  search-SearchIs :
      (fuel eh_frame end_ target_pc ptr : ℕ)
      → eh_frame ≤ ptr
      → end_ - ptr < fuel
      → SearchIs eh_frame end_ target_pc (search memory fuel eh_frame end_ target_pc ptr)
  unfolding search
  search-SearchIs zero eh_frame end_ target_pc ptr h enough = absurd (omega (arith, enough))
  search-SearchIs (suc fuel) eh_frame end_ target_pc ptr h enough =
      if-cases S (ltb (ptr + 4) end_)
        (λ more.
          visited (λ p hp ep. search-SearchIs fuel eh_frame end_ target_pc p hp ep)
            (read_entry memory end_ ptr) (ground (arith, more))
            (read_entry-Inside end_ ptr (ltb→lt (ptr + 4) end_ more)))
        (λ at_end. tt)
    where
      S : Search → Type 0
      S = SearchIs eh_frame end_ target_pc

      next : ℕ → Search
      next p = search memory fuel eh_frame end_ target_pc p

      found_or-SearchIs :
          (o : Option Found) (rest : Search)
          → FoundIs eh_frame end_ target_pc o
          → S rest
          → S (found_or memory o rest)
      found_or-SearchIs none rest a b = b
      found_or-SearchIs (some f) rest a b = a

      visited :
          ((p : ℕ) → eh_frame ≤ p → end_ - p < fuel → S (next p))
          → (o : Option EntryBounds) → ptr + 4 < end_
          → Inside end_ ptr o
          → S (visit memory (match_entry memory eh_frame end_ target_pc) next o)
      visited ends none data_left i = tt
      visited ends (some e) data_left i =
          found_or-SearchIs (match_entry memory eh_frame end_ target_pc e) (next (e.stop))
            (match_entry-FoundIs eh_frame end_ target_pc e (omega (arith, h, i.0)) (i.1.0) (i.1.1))
            (ends (e.stop) (omega (arith, h, i.0, i.1.0))
              (omega (arith, enough, data_left, i.0, i.1.0)))

  -- ksdwarf_findFDE ends within a round for each byte of the section. An FDE that it gives and
  -- its CIE lie in the section, the CIE is of a version it reads, and the FDE, read with that CIE,
  -- has the program counter in its range.
  pub find_fde-SearchIs :
      (eh_frame eh_frame_size target_pc : ℕ)
      → SearchIs eh_frame
          (eh_frame + eh_frame_size)
          target_pc
          (find_fde memory eh_frame eh_frame_size target_pc)
  unfolding find_fde
  find_fde-SearchIs eh_frame eh_frame_size target_pc =
      if-both (SearchIs eh_frame (eh_frame + eh_frame_size) target_pc)
        (eh_frame == 0 || eh_frame_size == 0) tt
        (search-SearchIs (suc eh_frame_size) eh_frame (eh_frame + eh_frame_size) target_pc eh_frame
          (omega arith) (omega arith))
