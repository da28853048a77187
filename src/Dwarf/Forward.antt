-- ===== src/Dwarf/Forward.antt =====
-- The readers never move back, and none moves the end of the data.
use kscrash.Prelude.{
  ℕ, zero, suc, ◌+◌, ◌*◌, ◌%◌, ◌^◌, ◌≤◌, bit_or, ◌≡◌, refl, sym, ◌∙◌, subst, ◌&&◌, Option, none,
  some, arith, ◌==◌, ltb, leb, if-cases, if-both,
}
use kscrash.Dwarf.Reader.{
  wrap, Memory, Reader, has_data, read_unsigned, read_signed, Groups, ended, truncated, leb_groups,
  uleb_value, sleb_value, read_uleb128, read_sleb128, read_format, relocate, read_encoded_pointer,
}

-- `r'` stands at `r` or behind it, in the same data.
abbrev pub Ahead : Reader → Reader → Type 0
Ahead r r' = (r.position ≤ r'.position) × (r'.limit ≡ r.limit)

pub Ahead-refl : (r : Reader) → Ahead r r
Ahead-refl r = (omega arith, refl)

pub Ahead-trans : (r r' r'' : Reader) → Ahead r r' → Ahead r' r'' → Ahead r r''
Ahead-trans r r' r'' h k = (omega (arith, h.0, k.0), k.1 ∙ h.1)

module _ (memory : Memory) where
  pub read_unsigned-Ahead : (size : ℕ) (r : Reader) → Ahead r ((read_unsigned memory size r).1)
  unfolding read_unsigned
  read_unsigned-Ahead size r =
      if-both (λ (x : ℕ × Reader). Ahead r (x.1)) (has_data r size) (omega arith, refl)
        (Ahead-refl r)

  pub read_signed-Ahead : (size : ℕ) (r : Reader) → Ahead r ((read_signed memory size r).1)
  unfolding read_signed
  read_signed-Ahead size r = read_unsigned-Ahead size r

  abbrev after_groups : Groups → Reader
  after_groups (ended value last shift r) = r
  after_groups (truncated r) = r

  leb_groups-Ahead :
      (n shift result : ℕ) (r : Reader)
      → Ahead r (after_groups (leb_groups memory n shift result r))
  unfolding leb_groups
  leb_groups-Ahead zero shift result r = Ahead-refl r
  leb_groups-Ahead (suc n) shift result r =
      let b = memory.byte (r.position) in
      let r' = record r { position = suc (r.position) } in
      let value = bit_or result (wrap (b % 128 * 2 ^ shift)) in
      let later = leb_groups-Ahead n (shift + 7) value r' in
      if-both (λ g. Ahead r (after_groups g)) (has_data r 1)
        (if-both (λ g. Ahead r (after_groups g)) (leb 128 b && ltb (shift + 7) 64)
          (omega (arith, later.0), later.1) (omega arith, refl))
        (Ahead-refl r)

  uleb_value-reader : (g : Groups) → (uleb_value memory g).1 ≡ after_groups g
  uleb_value-reader (ended value last shift r) = refl
  uleb_value-reader (truncated r) = refl

  sleb_value-reader : (g : Groups) → (sleb_value memory g).1 ≡ after_groups g
  sleb_value-reader (ended value last shift r) = refl
  sleb_value-reader (truncated r) = refl

  pub read_uleb128-Ahead : (r : Reader) → Ahead r ((read_uleb128 memory r).1)
  unfolding read_uleb128
  read_uleb128-Ahead r =
      subst (Ahead r) (sym (uleb_value-reader (leb_groups memory 10 0 0 r)))
        (leb_groups-Ahead 10 0 0 r)

  pub read_sleb128-Ahead : (r : Reader) → Ahead r ((read_sleb128 memory r).1)
  unfolding read_sleb128
  read_sleb128-Ahead r =
      subst (Ahead r) (sym (sleb_value-reader (leb_groups memory 10 0 0 r)))
        (leb_groups-Ahead 10 0 0 r)

  leb_groups-le :
      (n shift result : ℕ) (r : Reader)
      → r.position ≤ r.limit
      → (after_groups (leb_groups memory n shift result r)).position ≤ r.limit
  unfolding leb_groups
  leb_groups-le zero shift result r h = h
  leb_groups-le (suc n) shift result r h =
      let b = memory.byte (r.position) in
      let r' = record r { position = suc (r.position) } in
      let value = bit_or result (wrap (b % 128 * 2 ^ shift)) in
      if-cases P (has_data r 1)
        (λ more.
          if-both P (leb 128 b && ltb (shift + 7) 64)
            (leb_groups-le n (shift + 7) value r' (ground (arith, more))) (ground (arith, more)))
        (λ at_end. h)
    where
      P : Groups → Type 0
      P g = (after_groups g).position ≤ r.limit

  -- `readULEB128` does not pass the end of the data.
  pub read_uleb128-le :
      (r : Reader) → r.position ≤ r.limit → ((read_uleb128 memory r).1).position ≤ r.limit
  unfolding read_uleb128
  read_uleb128-le r h =
      subst (λ (x : Reader). x.position ≤ r.limit)
        (sym (uleb_value-reader (leb_groups memory 10 0 0 r))) (leb_groups-le 10 0 0 r h)

  abbrev FormatAhead : Reader → Option (ℕ × Reader) → Type 0
  FormatAhead r none = Unit
  FormatAhead r (some (value, r')) = Ahead r r'

  read_format-Ahead : (format : ℕ) (r : Reader) → FormatAhead r (read_format memory format r)
  unfolding read_format
  read_format-Ahead format r =
      let u : (n : ℕ) → Ahead r ((read_unsigned memory n r).1) = λ n. read_unsigned-Ahead n r in
      let s : (n : ℕ) → Ahead r ((read_signed memory n r).1) = λ n. read_signed-Ahead n r in
      let F : Option (ℕ × Reader) → Type 0 = FormatAhead r in
      if-both F (format == 0x00) (u 8) (
        if-both F (format == 0x01) (read_uleb128-Ahead r) (
          if-both F (format == 0x02) (u 2) (
            if-both F (format == 0x03) (u 4) (
              if-both F (format == 0x04) (u 8) (
                if-both F (format == 0x09) (read_sleb128-Ahead r) (
                  if-both F (format == 0x0A) (s 2)
                    (if-both F (format == 0x0B) (s 4) (if-both F (format == 0x0C) (s 8) tt))))))))

  relocate-Ahead :
      (encoding base : ℕ) (r : Reader) (o : Option (ℕ × Reader))
      → FormatAhead r o
      → Ahead r ((relocate memory encoding base r o).1)
  relocate-Ahead encoding base r none h = Ahead-refl r
  relocate-Ahead encoding base r (some (value, r')) h = h

  pub read_encoded_pointer-Ahead :
      (encoding base : ℕ) (r : Reader) → Ahead r ((read_encoded_pointer memory encoding base r).1)
  unfolding read_encoded_pointer
  read_encoded_pointer-Ahead encoding base r =
      if-both (λ (x : ℕ × Reader). Ahead r (x.1)) (encoding == 0xFF) (Ahead-refl r)
        (relocate-Ahead encoding base r (read_format memory (encoding % 16) r)
          (read_format-Ahead (encoding % 16) r))
