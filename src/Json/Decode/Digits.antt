-- ===== src/Json/Decode/Digits.antt =====
-- The decoder reads back the decimal numbers that the encoder prints.
use kscrash.Prelude.{
  ℕ, zero, suc, ◌+◌, ◌-◌, ◌*◌, ◌/◌, ◌%◌, ◌≤◌, ◌<◌, ◌≡◌, refl, ◌∙◌, inl, inr, Bool, true, false, not,
  [], ◌∷◌, ◌++◌, append_assoc, pos, negsuc, Bytes, uint64_max, int64_max, arith, ltb, leb,
  ltb-eq_false, lt→ltb, ltb→lt, le→leb, if◌then◌else◌, Bool-cases,
}
use kscrash.Json.Encode.Number.{DoubleOps, decimal_digits, decimal}
use kscrash.Json.Encode.Decimal.{ten_to}
use kscrash.Json.Decode.Callbacks.{Beyond}
use kscrash.Json.Decode.Text.{ok}
use kscrash.Json.Decode.Number.{
  integer, unsigned, is_digit, is_fp_char, scan_digits, opposite, finish_number, decode_unsigned,
  decode_negative,
}

-- One digit of the loop, where the sum still fits 64 bits.
scan_digits-cons :
    (accum digit next : ℕ) (cs : Bytes)
    → digit < 10
    → next ≡ accum * 10 + digit
    → next ≤ uint64_max
    → scan_digits accum ((b'0' + digit) ∷ cs) ≡ scan_digits next cs
unfolding scan_digits
scan_digits-cons accum digit next cs d e h =
    let back : b'0' + digit - b'0' ≡ digit = omega arith in
    rw (
      le→leb b'0' (b'0' + digit) (omega arith),
      le→leb (b'0' + digit) b'9' (omega arith),
      back,
      ltb-eq_false (uint64_max / 10) accum (omega arith),
      ltb-eq_false (uint64_max - digit) (accum * 10) (omega arith),
      e,
    )

ltb→le : (a b : ℕ) → ltb a b ≡ false → b ≤ a
ltb→le a b h = ground arith

scan_digits-decimal :
    (digits n : ℕ) (rest : Bytes)
    → n < ten_to (suc digits)
    → n ≤ uint64_max
    → scan_digits 0 (decimal_digits (suc digits) n ++ rest) ≡ scan_digits n rest
unfolding decimal_digits
scan_digits-decimal zero n rest h k =
    rw (lt→ltb n 10 (omega arith)) (scan_digits-cons 0 n n rest (omega arith) (omega arith) k)
scan_digits-decimal (suc digits) n rest h k = elim (Bool-cases (ltb n 10)) [
  | inl small ↦ rw small (scan_digits-cons 0 n n rest (ltb→lt n 10 small) (omega arith) k)
  | inr large ↦
      rw (large, append_assoc)
        (scan_digits-decimal digits (n / 10) ((b'0' + n % 10) ∷ rest) (omega arith) (omega arith)
          ∙ scan_digits-cons (n / 10) (n % 10) n rest (omega arith) (omega arith) k)
]

-- The input ends the number: something follows, and it is no part of a number.
abbrev pub ends_number : Bytes → Bool
ends_number [] = false
ends_number (c ∷ cs) = not (is_fp_char c)

scan_digits_stop :
    (n : ℕ) (rest : Bytes)
    → ends_number rest ≡ true
    → scan_digits n rest ≡ record { is_overflow = false; accum = n; rest = rest }
unfolding scan_digits
scan_digits_stop n [] h = refl
scan_digits_stop n (c ∷ cs) h = ground arith

scan_digits_lem :
    (n : ℕ) (rest : Bytes)
    → n ≤ uint64_max
    → ends_number rest ≡ true
    → scan_digits 0 (decimal n ++ rest) ≡ record { is_overflow = false; accum = n; rest = rest }
scan_digits_lem n rest k h =
    scan_digits-decimal 19 n rest (omega arith) k ∙ scan_digits_stop n rest h

-- The first digit.
digit_is : (c : ℕ) → b'0' ≤ c → c ≤ b'9' → is_digit c ≡ true
digit_is c h k = ground arith

small_digit : (n : ℕ) → ltb n 10 ≡ true → is_digit (b'0' + n) ≡ true
small_digit n h = digit_is (b'0' + n) (omega arith) (omega (arith, ltb→lt n 10 h))

pub decimal_head :
    (digits n : ℕ) (rest : Bytes)
    → (c : ℕ) × (cs : Bytes) × (decimal_digits (suc digits) n ++ rest ≡ c ∷ cs)
      × (is_digit c ≡ true)
unfolding decimal_digits
decimal_head zero n rest = elim (Bool-cases (ltb n 10)) [
  | inl small ↦ rw small (b'0' + n, rest, refl, small_digit n small)
  | inr large ↦
      rw large (b'0' + n % 10, rest, refl, digit_is (b'0' + n % 10) (omega arith) (omega arith))
]
decimal_head (suc digits) n rest = elim (Bool-cases (ltb n 10)) [
  | inl small ↦ rw small (b'0' + n, rest, refl, small_digit n small)
  | inr large ↦ rw (large, append_assoc) (decimal_head digits (n / 10) ((b'0' + n % 10) ∷ rest))
]

-- The three outcomes for an integer. `negative` says that a minus sign stood before.
finish_number-ends :
    (ops : DoubleOps) (negative : Bool) (string_buffer_length n : ℕ) (start rest : Bytes)
    → ends_number rest ≡ true
    → n ≤ (if negative then int64_max + 1 else uint64_max)
    → finish_number ops negative string_buffer_length start
        (record { is_overflow = false; accum = n; rest = rest })
      ≡ ok (
        if negative
            then integer (opposite n)
            else if leb n int64_max
            then integer (pos n)
            else unsigned n,
        rest,
      )
unfolding finish_number
finish_number-ends ops negative len n start [] h k = cc h
finish_number-ends ops true len n start (c ∷ cs) h k = rw (h, le→leb n (int64_max + 1) k)
finish_number-ends ops false len n start (c ∷ cs) h k = elim (Bool-cases (leb n int64_max)) [
  | inl small ↦ rw (h, small)
  | inr large ↦ rw (h, large)
]

module _ (ops : DoubleOps) (string_buffer_length : ℕ) (rest : Bytes)
    (h : ends_number rest ≡ true) where
  pub decode_unsigned-decimal :
      (negative : Bool) (n : ℕ)
      → n ≤ (if negative then int64_max + 1 else uint64_max)
      → n ≤ uint64_max
      → decode_unsigned ops negative string_buffer_length (decimal n ++ rest)
        ≡ ok (
          if negative
              then integer (opposite n)
              else if leb n int64_max
              then integer (pos n)
              else unsigned n,
          rest,
        )
  unfolding decode_unsigned
  decode_unsigned-decimal negative n k l =
      rw (scan_digits_lem n rest l h)
        (finish_number-ends ops negative string_buffer_length n (decimal n ++ rest) rest h k)

  pub decode_negative-decimal :
      (beyond : Beyond) (n : ℕ)
      → n ≤ int64_max
      → decode_negative ops beyond string_buffer_length (decimal (suc n) ++ rest)
        ≡ ok (integer (negsuc n), rest)
  unfolding decode_negative
  decode_negative-decimal beyond n k =
      let (c, cs, text, digit) = decimal_head 19 (suc n) rest in
      rw (text, digit)
        (rw (← text) (decode_unsigned-decimal true (suc n) (omega arith) (omega arith)))
