-- ===== src/Json/Encode/Number.antt =====
-- Printing of numbers: `checkWriteResult`, `formatDouble`, `formatInt64` and `formatUint64`.
use kscrash.Prelude.{
  ◌≤◌, int64_max, ℕ, zero, suc, ◌+◌, ◌/◌, ◌%◌, Bool, false, ◌&&◌, ◌||◌, [], ◌∷◌, ◌++◌, ℤ, pos,
  negsuc, Bytes, codes, ◌==◌, ltb, leb, if◌then◌else◌, length,
}
use kscrash.Json.Codes.{ksjson_ok, ksjson_error_invalid_character, ksjson_error_data_too_long}

-- What the codec uses of `double`, of `printf` at a `double` and of `scanf("%lg")`.
-- There are no floats in the model, so it is the same for every such type.
pub record DoubleOps : Type 1 where
  pub Double : Type 0
  pub is_nan : Double → Bool
  pub is_inf : Double → Bool
  pub is_positive : Double → Bool
  -- `fabs(value - floatValue) <= FLT_EPSILON * fabs(value)`
  pub near_float : Double → Bool
  -- `%.*g` with FLT_DIG and DBL_DIG digits, and `%.1f`
  pub print_float : Double → Bytes
  pub print_double : Double → Bytes
  pub print_fixed : Double → Bytes
  pub scan : Bytes → Double
  pub negate : Double → Double
  pub of_integer : ℤ → Double

-- `checkWriteResult`: the code, at what `snprintf` returned for a buffer of `buff_size` bytes.
unfoldable pub check_write_result : ℤ → ℕ → ℕ
check_write_result (negsuc n) buff_size = ksjson_error_invalid_character
check_write_result (pos n) buff_size =
    if leb buff_size n then ksjson_error_data_too_long else ksjson_ok

abbrev pub contains : ℕ → Bytes → Bool
contains b [] = false
contains b (c ∷ cs) = c == b || contains b cs

-- The loop that cuts the zeros at the end of what follows the dot.
unfoldable pub cut_zeros : Bytes → Bytes
cut_zeros [] = []
cut_zeros (c ∷ cs) = elim (cut_zeros cs) [
  | [] ↦ if c == b'0' then [] else c ∷ []
  | x ∷ xs ↦ c ∷ x ∷ xs
]

-- `if (end == dot) { *++end = '0'; written++; }`
abbrev pub keep_one : Bytes → Bytes
keep_one [] = b'0' ∷ []
keep_one (x ∷ xs) = x ∷ xs

unfoldable pub trim_fraction : Bytes → Bytes
trim_fraction [] = []
trim_fraction (c ∷ cs) =
    let more = trim_fraction cs in if c == b'.' then c ∷ keep_one (cut_zeros cs) else c ∷ more

-- The size of the buffer of `ksjson_addFloatingPointElement`.
abbrev pub double_buff_size : ℕ
double_buff_size = 64

module _ (ops : DoubleOps) where
  open ops use {
    Double, is_nan, is_inf, is_positive, near_float, print_float, print_double, print_fixed,
  }

  -- The text of a finite value.
  unfoldable pub finite_text : Double → Bytes
  finite_text value =
      let text = if near_float value then print_float value else print_double value in
      if ltb 0 (length text) && ltb (length text) double_buff_size
      then (if contains b'e' text
          then text
          else if contains b'.' text
          then trim_fraction text
          else print_fixed value)
      else text

  -- `formatDouble`: the code and the text.
  unfoldable pub format_double : Double → ℕ × Bytes
  format_double value =
      let text =
        if is_nan value
        then codes "null"
        else if is_inf value
        then (if is_positive value then codes "1e999" else codes "-1e999")
        else finite_text value in
      (check_write_result (pos (length text)) double_buff_size, text)

-- `printf("%" PRIu64)`, with at most `digits` digits.
unfoldable pub decimal_digits : ℕ → ℕ → Bytes
decimal_digits zero n = []
decimal_digits (suc digits) n =
    let front = decimal_digits digits (n / 10) in
    if ltb n 10 then (b'0' + n) ∷ [] else front ++ ((b'0' + n % 10) ∷ [])

-- No 64-bit integer has more digits.
abbrev pub max_digits : ℕ
max_digits = 20

abbrev pub decimal : ℕ → Bytes
decimal n = decimal_digits max_digits n

-- `printf("%" PRId64)`.
abbrev pub signed_decimal : ℤ → Bytes
signed_decimal (pos n) = decimal n
signed_decimal (negsuc n) = b'-' ∷ decimal (suc n)

-- The values of `int64_t`.
abbrev pub IsInt64 : ℤ → Type 0
IsInt64 (pos n) = n ≤ int64_max
IsInt64 (negsuc n) = n ≤ int64_max

-- `char buff[21]` of the two integer elements.
abbrev pub integer_buff_size : ℕ
integer_buff_size = 21

unfoldable pub format_int64 : ℤ → ℕ × Bytes
format_int64 value =
    let text = signed_decimal value in
    (check_write_result (pos (length text)) integer_buff_size, text)

unfoldable pub format_uint64 : ℕ → ℕ × Bytes
format_uint64 value =
    let text = decimal value in (check_write_result (pos (length text)) integer_buff_size, text)
