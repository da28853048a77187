-- ===== src/Dwarf/Leb.antt =====
-- `readULEB128` reads what a writer of the format puts into memory.
use Prim.Native.Nat.{digits, max, bit_or-bitwise}
use native.Mathlib.Omega.{pow_step}
use kscrash.Prelude.{
  ℕ, zero, suc, ◌+◌, ◌-◌, ◌*◌, ◌/◌, ◌%◌, ◌^◌, ◌≤◌, ◌<◌, bit_or, ◌≡◌, refl, sym, ap, ap₂, ◌∙◌, subst,
  ◌&&◌, List, [], ◌∷◌, ◌++◌, length, arith, ltb, leb, ltb→lt, if◌then◌else◌, if-cases,
}
use kscrash.Dwarf.Reader.{
  word_mod, wrap, Memory, Reader, has_data, little_endian, read_unsigned, leb_groups, Groups, ended,
  uleb_value, read_uleb128, has_sign, sleb_value, read_sleb128,
}

abbrev or_digits : ℕ → ℕ → ℕ → ℕ
or_digits n a b = digits (λ b. b) max n a b

or_digits_fuel : (n m a b : ℕ) → a ≤ n → a ≤ m → or_digits n a b ≡ or_digits m a b
or_digits_fuel zero zero a b p q = refl
or_digits_fuel zero (suc m) zero b p q = refl
or_digits_fuel zero (suc m) (suc a) b p q = absurd (omega arith)
or_digits_fuel (suc n) zero zero b p q = refl
or_digits_fuel (suc n) zero (suc a) b p q = absurd (omega arith)
or_digits_fuel (suc n) (suc m) zero b p q = refl
or_digits_fuel (suc n) (suc m) (suc a) b p q =
    omega (arith, or_digits_fuel n m (suc a / 2) (b / 2) (omega arith) (omega arith))

zero-bit_or : (b : ℕ) → bit_or 0 b ≡ b
zero-bit_or b = bit_or-bitwise 0 b

-- The law for the lowest digit.
bit_or_step : (a b : ℕ) → bit_or a b ≡ bit_or (a / 2) (b / 2) * 2 + max (a % 2) (b % 2)
bit_or_step zero b = omega (arith, zero-bit_or b, zero-bit_or (b / 2))
bit_or_step (suc a) b = omega (
  arith,
  bit_or-bitwise (suc a) b,
  bit_or-bitwise (suc a / 2) (b / 2),
  or_digits_fuel a (suc a / 2) (suc a / 2) (b / 2) (omega arith) (omega arith),
)

pow_suc : (k : ℕ) → 2 ^ (suc k) ≡ 2 * 2 ^ k
pow_suc k = pow_step 2 k

pow_seven : (k : ℕ) → 2 ^ (k + 7) ≡ 128 * 2 ^ k
pow_seven k =
    ap (λ n. 2 ^ n) seven
    ∙ omega (
      arith,
      pow_suc k,
      pow_suc (suc k),
      pow_suc (suc (suc k)),
      pow_suc (suc (suc (suc k))),
      pow_suc (suc (suc (suc (suc k)))),
      pow_suc (suc (suc (suc (suc (suc k))))),
      pow_suc (suc (suc (suc (suc (suc (suc k)))))),
    )
  where
    seven : k + 7 ≡ suc (suc (suc (suc (suc (suc (suc k))))))
    seven = omega arith

-- Numbers whose digits do not overlap are added.
bit_or_disjoint : (k a b : ℕ) → a < 2 ^ k → bit_or a (b * 2 ^ k) ≡ a + b * 2 ^ k
bit_or_disjoint zero a b h =
    let none : a ≡ 0 = omega (arith, h) in
    subst (λ n. bit_or n (b * 1) ≡ n + b * 1) (sym none) (zero-bit_or (b * 1) ∙ omega arith)
bit_or_disjoint (suc k) a b h =
    let digits : bit_or (a / 2) (b * 2 ^ k) ≡ a / 2 + b * 2 ^ k =
      bit_or_disjoint k (a / 2) b (omega (arith, h, pow_suc k)) in
    let double : b * 2 ^ (suc k) ≡ 2 * (b * 2 ^ k) = rw (pow_suc k) (omega arith) in
    let half : b * 2 ^ (suc k) / 2 ≡ b * 2 ^ k = omega (arith, double) in
    let low : b * 2 ^ (suc k) % 2 ≡ 0 = omega (arith, double) in
    bit_or_step a (b * 2 ^ (suc k))
    ∙ ap₂ (λ x y. bit_or (a / 2) x * 2 + max (a % 2) y) half low
    ∙ omega (arith, digits, double)

-- The format: seven bits to a byte, the lowest first, and the top bit where more follow.
unfoldable pub encode_uleb128 : ℕ → ℕ → List ℕ
encode_uleb128 zero value = []
encode_uleb128 (suc rounds) value =
    let rest = encode_uleb128 rounds (value / 128) in
    if ltb value 128 then value ∷ [] else (value % 128 + 128) ∷ rest

-- Seven bits as a signed number, at its pattern of 64 bits.
abbrev pub seven_bits : ℕ → ℕ
seven_bits b = if ltb b 64 then b else b + (word_mod - 128)

abbrev pub skip : ℕ → Reader → Reader
skip n r = record r { position = r.position + n }

module _ (memory : Memory) where
  -- The bytes stand in memory from `p` on.
  abbrev pub Holds : ℕ → List ℕ → Type 0
  Holds p [] = Unit
  Holds p (b ∷ bs) = (memory.byte p ≡ b) × Holds (suc p) bs

  -- A byte of the value, at the shift reached.
  group_value :
      (shift result c b : ℕ)
      → result < 2 ^ shift
      → c * 2 ^ shift < word_mod
      → b % 128 ≡ c
      → bit_or result (wrap (b % 128 * 2 ^ shift)) ≡ result + c * 2 ^ shift
  group_value shift result c b low bound digit =
      ap (λ x. bit_or result (wrap (x * 2 ^ shift))) digit
      ∙ ap (bit_or result) (small (c * 2 ^ shift) bound)
      ∙ bit_or_disjoint shift result c low
    where
      small : (x : ℕ) → x < word_mod → wrap x ≡ x
      small x h = omega (arith, h)

  end_group :
      (n shift result b : ℕ) (r : Reader)
      → memory.byte (r.position) ≡ b
      → r.position + 1 ≤ r.limit
      → b < 128
      → result < 2 ^ shift
      → b * 2 ^ shift < word_mod
      → leb_groups memory (suc n) shift result r
        ≡ ended (result + b * 2 ^ shift) b (shift + 7) (record r { position = suc (r.position) })
  unfolding leb_groups
  end_group n shift result b r holds fits low_byte low bound =
      if-cases Fine (has_data r 1)
        (λ data_left.
          if-cases Fine (leb 128 (memory.byte (r.position)) && ltb (shift + 7) 64)
            (λ more. absurd (ground (arith, more, holds, low_byte)))
            (λ last.
              ap₂ (λ x y. ended x y (shift + 7) (record r { position = suc (r.position) }))
                (group_value shift result b (memory.byte (r.position)) low bound
                  (omega (arith, holds, low_byte)))
                holds))
        (λ no_data. absurd (ground (arith, no_data, fits)))
    where
      Fine : Groups → Type 0
      Fine g =
          g
          ≡ ended (result + b * 2 ^ shift) b (shift + 7) (record r { position = suc (r.position) })

  last_group :
      (n shift result b : ℕ) (r : Reader)
      → memory.byte (r.position) ≡ b
      → r.position + 1 ≤ r.limit
      → b < 128
      → result < 2 ^ shift
      → b * 2 ^ shift < word_mod
      → uleb_value memory (leb_groups memory (suc n) shift result r)
        ≡ (result + b * 2 ^ shift, record r { position = suc (r.position) })
  last_group n shift result b r holds fits low_byte low bound =
      ap (uleb_value memory) (end_group n shift result b r holds fits low_byte low bound)

  next_group :
      (n shift result c : ℕ) (r : Reader)
      → memory.byte (r.position) ≡ c + 128
      → r.position + 1 ≤ r.limit
      → c < 128
      → shift + 7 < 64
      → result < 2 ^ shift
      → c * 2 ^ shift < word_mod
      → leb_groups memory (suc n) shift result r
        ≡ leb_groups memory n
            (shift + 7)
            (result + c * 2 ^ shift)
            (record r { position = suc (r.position) })
  unfolding leb_groups
  next_group n shift result c r holds fits low_byte early low bound =
      if-cases Fine (has_data r 1)
        (λ data_left.
          if-cases Fine (leb 128 (memory.byte (r.position)) && ltb (shift + 7) 64)
            (λ more.
              ap (λ x. leb_groups memory n (shift + 7) x (record r { position = suc (r.position) }))
                (group_value shift result c (memory.byte (r.position)) low bound
                  (omega (arith, holds, low_byte))))
            (λ last. absurd (ground (arith, last, holds, early))))
        (λ no_data. absurd (ground (arith, no_data, fits)))
    where
      Fine : Groups → Type 0
      Fine g =
          g
          ≡ leb_groups memory n (shift + 7) (result + c * 2 ^ shift)
              (record r { position = suc (r.position) })

  split : (value p : ℕ) → value * p ≡ value % 128 * p + value / 128 * (128 * p)
  split value p = ap (λ v. v * p) parts ∙ omega arith
    where
      parts : value ≡ value % 128 + value / 128 * 128
      parts = omega arith

  room : (c p : ℕ) → c < 128 → c * p + p ≤ 128 * p
  room c p h =
      let parts : 128 * p ≡ (c + 1 + (127 - c)) * p = ap (λ x. x * p) (omega (arith, h)) in
      let sum : (c + 1 + (127 - c)) * p ≡ c * p + p + (127 - c) * p = omega arith in
      omega (arith, parts, sum)

  no_large : (shift : ℕ) → shift ≡ 63 → (value : ℕ) → value * 2 ^ shift < word_mod → 128 ≤ value → ⊥
  no_large shift at value bound large =
      let bound' : value * 2 ^ 63 < word_mod = subst (λ k. value * 2 ^ k < word_mod) at bound in
      omega (arith, bound', large)

  abbrev Reads : ℕ → ℕ → ℕ → ℕ → Reader → List ℕ → Type 0
  Reads n shift result value r bytes =
      Holds (r.position) bytes
      → r.position + length bytes ≤ r.limit
      → uleb_value memory (leb_groups memory (suc n) shift result r)
        ≡ (result + value * 2 ^ shift, record r { position = r.position + length bytes })

  -- The groups of a value, from the shift on that they have reached.
  leb_groups-encode :
      (n shift result value : ℕ) (r : Reader)
      → shift + 7 * suc n ≡ 70
      → result < 2 ^ shift
      → value * 2 ^ shift < word_mod
      → Holds (r.position) (encode_uleb128 (suc n) value)
      → r.position + length (encode_uleb128 (suc n) value) ≤ r.limit
      → uleb_value memory (leb_groups memory (suc n) shift result r) ≡ (
        result + value * 2 ^ shift,
        record r { position = r.position + length (encode_uleb128 (suc n) value) },
      )
  unfolding encode_uleb128
  leb_groups-encode zero shift result value r at low bound =
      if-cases (Reads zero shift result value r) (ltb value 128)
        (λ small holds fits.
          last_group zero shift result value r (holds.0) fits (ltb→lt value 128 small) low bound
          ∙ ap (λ p. (result + value * 2 ^ shift, record r { position = p })) (omega arith))
        (λ large. absurd (no_large shift (omega (arith, at)) value bound (ground (arith, large))))
  leb_groups-encode (suc n) shift result value r at low bound =
      let whole = split value (2 ^ shift) in
      let next = pow_seven shift in
      let higher = ap (λ x. value / 128 * x) next in
      if-cases (Reads (suc n) shift result value r) (ltb value 128)
        (λ small holds fits.
          last_group (suc n) shift result value r (holds.0) fits (ltb→lt value 128 small) low bound
          ∙ ap (λ p. (result + value * 2 ^ shift, record r { position = p })) (omega arith))
        (λ large holds fits.
          let r' = record r { position = suc (r.position) } in
          let rest =
            leb_groups-encode n (shift + 7) (result + value % 128 * 2 ^ shift) (value / 128) r'
              (omega (arith, at))
              (omega (arith, low, next, room (value % 128) (2 ^ shift) (omega arith)))
              (omega (arith, higher, whole, bound)) (holds.1) (omega (arith, fits)) in
          ap (uleb_value memory) (
            next_group (suc n) shift result (value % 128) r (holds.0) (omega (arith, fits))
              (omega arith) (omega (arith, at)) low (omega (arith, whole, bound)))
          ∙ rest
          ∙ ap₂ (λ x p. (x, record r { position = p })) (omega (arith, higher, whole))
              (omega arith))

  -- `readULEB128` of the bytes that stand for a 64-bit number, all in front of the end of the
  -- data, gives that number and the reader behind them.
  pub read_uleb128-encode :
      (value : ℕ) (r : Reader)
      → value < word_mod
      → Holds (r.position) (encode_uleb128 10 value)
      → r.position + length (encode_uleb128 10 value) ≤ r.limit
      → read_uleb128 memory r
        ≡ (value, record r { position = r.position + length (encode_uleb128 10 value) })
  unfolding read_uleb128
  read_uleb128-encode value r bound holds fits =
      leb_groups-encode 9 0 0 value r (omega arith) (omega arith) (omega (arith, bound)) holds fits
      ∙ ap (λ x. (x, record r { position = r.position + length (encode_uleb128 10 value) }))
          (omega arith)

  -- `readULEB128` of a single byte gives that byte.
  pub read_uleb128-byte :
      (b : ℕ) (r : Reader)
      → b < 128
      → memory.byte (r.position) ≡ b
      → r.position + 1 ≤ r.limit
      → read_uleb128 memory r ≡ (0 + b * 1, record r { position = suc (r.position) })
  unfolding read_uleb128
  read_uleb128-byte b r low holds fits =
      ap (uleb_value memory) (end_group 9 0 0 b r holds fits low (omega arith) (omega (arith, low)))

  -- `readSLEB128` of a single byte gives its seven bits as a signed number.
  pub read_sleb128-byte :
      (b : ℕ) (r : Reader)
      → b < 128
      → memory.byte (r.position) ≡ b
      → r.position + 1 ≤ r.limit
      → read_sleb128 memory r ≡ (seven_bits b, record r { position = suc (r.position) })
  unfolding read_sleb128
  read_sleb128-byte b r low holds fits =
      ap (sleb_value memory) (end_group 9 0 0 b r holds fits low (omega arith) (omega (arith, low)))
      ∙ ap (λ x. (x, record r { position = suc (r.position) })) signed
    where
      signed :
          (if has_sign memory b then bit_or (0 + b * 1) (word_mod - 128) else 0 + b * 1)
          ≡ seven_bits b
      signed =
          ground
            (arith, low, bit_or_disjoint 7 (0 + b * 1) 144_115_188_075_855_871 (omega (arith, low)))

  pub Holds-append :
      (p : ℕ) (xs ys : List ℕ) → Holds p (xs ++ ys) → Holds p xs × Holds (p + length xs) ys
  Holds-append p [] ys h = (tt, subst (λ q. Holds q ys) (omega arith) h)
  Holds-append p (x ∷ xs) ys h =
      let (left, right) = Holds-append (suc p) xs ys (h.1) in
      ((h.0, left), subst (λ q. Holds q ys) (omega arith) right)

  pub read_byte :
      (r : Reader)
      → r.position + 1 ≤ r.limit
      → read_unsigned memory 1 r ≡ (memory.byte (r.position), skip 1 r)
  unfolding read_unsigned little_endian
  read_byte r h =
      if-cases (λ x. x ≡ (memory.byte (r.position), skip 1 r)) (has_data r 1)
        (λ yes. ap (λ b. (b, skip 1 r)) (omega arith)) (λ no. absurd (ground (arith, no, h)))
