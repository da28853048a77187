-- ===== src/Json/Encode/Decimal.antt =====
-- The decimal texts of the codec: their length, and their bytes.
use kscrash.Prelude.{
  ℕ, zero, suc, ◌+◌, ◌*◌, ◌/◌, ◌%◌, ◌≤◌, ◌<◌, ◌≡◌, [], ◌∷◌, ℤ, pos, negsuc, uint64_max, arith, ltb,
  leb-eq_false, Bool-cases, inl, inr, length, length-append,
}
use kscrash.Json.Codes.{ksjson_ok}
use kscrash.Json.Encode.Number.{
  integer_buff_size, max_digits, IsInt64, check_write_result, decimal_digits, decimal,
  signed_decimal, format_int64, format_uint64,
}

abbrev pub ten_to : ℕ → ℕ
ten_to zero = 1
ten_to (suc k) = 10 * ten_to k

-- A number below the `k`-th power of ten has at most `k` digits.
pub length-decimal_digits :
    (k digits n : ℕ) → n < 10 * ten_to k → length (decimal_digits digits n) ≤ suc k
unfolding decimal_digits
length-decimal_digits k zero n h = omega arith
length-decimal_digits zero (suc digits) n h = ground arith
length-decimal_digits (suc k) (suc digits) n h = elim (Bool-cases (ltb n 10)) [
  | inl small ↦ rw small (omega arith)
  | inr large ↦ rw large (
      omega (
        arith,
        length-append {0} (decimal_digits digits (n / 10)) ((b'0' + n % 10) ∷ []),
        length-decimal_digits k digits (n / 10) (omega arith),
      ))
]

-- Every 64-bit integer's text fits the buffer of 21 bytes, its NUL included, and `formatInt64`
-- succeeds with it.
pub format_int64_lem : (n : ℤ) → IsInt64 n → format_int64 n ≡ (ksjson_ok, signed_decimal n)
unfolding format_int64 check_write_result
format_int64_lem (pos n) h = rw (
    leb-eq_false integer_buff_size (length (decimal n))
      (omega (arith, length-decimal_digits 18 max_digits n (omega arith))))
format_int64_lem (negsuc n) h = rw (
    leb-eq_false integer_buff_size (length (signed_decimal (negsuc n)))
      (omega (arith, length-decimal_digits 18 max_digits (suc n) (omega arith))))

-- Every unsigned 64-bit integer's text fits that buffer too, and `formatUint64` succeeds with it.
pub format_uint64_lem : (n : ℕ) → n ≤ uint64_max → format_uint64 n ≡ (ksjson_ok, decimal n)
unfolding format_uint64 check_write_result
format_uint64_lem n h = rw (
    leb-eq_false integer_buff_size (length (decimal n))
      (omega (arith, length-decimal_digits 19 max_digits n (omega arith))))
