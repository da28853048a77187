-- ===== src/Strings/Utf8/Text.antt =====
-- The strings that are accepted: characters of one to six bytes, and a NUL behind them.
use kscrash.Prelude.{
  ℕ, zero, suc, ◌-◌, ◌/◌, ◌%◌, ◌≤◌, ◌<◌, ◌≡◌, ◌⊎◌, refl, ap, ◌∙◌, true, Option, none, some, [], ◌∷◌,
  ◌++◌, List, Bytes, All, length, get_or, replicate, arith, ◌==◌, ltb, if◌then◌else◌, if-cases,
}
use kscrash.Strings.Utf8.{continuation_byte_count, skip_continuation}

-- How many bytes follow a first byte, and the first bytes that there are.
abbrev pub followers : ℕ → ℕ
followers lead =
    if ltb lead 224
    then 1
    else if ltb lead 240
    then 2
    else if ltb lead 248
    then 3
    else if ltb lead 252
    then 4
    else 5

abbrev pub IsLead : ℕ → ℕ → Type 0
IsLead lead n = (192 ≤ lead) × (lead < 254) × (n ≡ followers lead)

abbrev pub IsContinuation : ℕ → Type 0
IsContinuation b = (128 ≤ b) × (b < 192)

-- An ASCII character that can be printed, or a tab, a line feed or a carriage return.
abbrev pub IsPlain : ℕ → Type 0
IsPlain c = ((32 ≤ c) × (c < 128)) ⊎ ((c ≡ 9) ⊎ ((c ≡ 10) ⊎ (c ≡ 13)))

abbrev pub IsCharacter : Bytes → Type 0
IsCharacter [] = ⊥
IsCharacter (c ∷ bytes) =
    (IsPlain c × (bytes ≡ [])) ⊎ (IsLead c (length bytes) × All IsContinuation bytes)

abbrev pub concat : List Bytes → Bytes
concat [] = []
concat (c ∷ text) = c ++ concat text

-- Characters, and behind them a NUL that does not come too early.
abbrev pub IsText : ℕ → Bytes → Type 0
IsText min_length memory =
    (text : List Bytes) × (rest : Bytes) × All IsCharacter text
    × (memory ≡ concat text ++ (0 ∷ rest))
    × (min_length ≤ length (concat text))

get_or-replicate :
    (n a : ℕ) (xs : List ℕ) (i d : ℕ)
    → get_or (replicate n a ++ xs) i d ≡ (if ltb i n then a else get_or xs (i - n) d)
get_or-replicate zero a xs i d = let whole : i - 0 ≡ i = omega arith in rw whole (ground arith)
get_or-replicate (suc n) a xs zero d = ground arith
get_or-replicate (suc n) a xs (suc i) d =
    let less : suc i - suc n ≡ i - n = omega arith in
    let test : ltb (suc i) (suc n) ≡ ltb i n = ground arith in
    rw (less, test) (get_or-replicate n a xs i d)

abbrev last_four : List ℕ
last_four = 5 ∷ 5 ∷ 0 ∷ 0 ∷ []

last_counts : (j : ℕ) → get_or last_four j 0 ≡ (if ltb j 2 then 5 else 0)
last_counts zero = refl
last_counts (suc zero) = refl
last_counts (suc (suc zero)) = refl
last_counts (suc (suc (suc zero))) = refl
last_counts (suc (suc (suc (suc j)))) = ground arith

-- The table, at a byte of the range that it is for.
pub count-followers :
    (ch : ℕ) → ch / 64 ≡ 3 → continuation_byte_count ch ≡ (if ltb ch 254 then followers ch else 0)
unfolding continuation_byte_count
count-followers ch top =
    get_or-replicate 32 1 (replicate 16 2 ++ (replicate 8 3 ++ (replicate 4 4 ++ last_four)))
      (ch % 64) 0
    ∙ rw
        (
          get_or-replicate 16 2 (replicate 8 3 ++ (replicate 4 4 ++ last_four)) (ch % 64 - 32) 0,
          get_or-replicate 8 3 (replicate 4 4 ++ last_four) (ch % 64 - 32 - 16) 0,
          get_or-replicate 4 4 last_four (ch % 64 - 32 - 16 - 8) 0,
          last_counts (ch % 64 - 32 - 16 - 8 - 4),
        )
        (ground (arith, top))

-- `b & 0xC0` of a continuation byte.
pub skip_continuation-All :
    (bytes rest : Bytes)
    → All IsContinuation bytes
    → skip_continuation (length bytes) (bytes ++ rest) ≡ some rest
unfolding skip_continuation
skip_continuation-All [] rest h = refl
skip_continuation-All (b ∷ bytes) rest ((low, high), hs) =
    let mark : b / 64 ≡ 2 = omega (arith, low, high) in
    rw mark (skip_continuation-All bytes rest hs)

-- What is behind the bytes that are skipped.
abbrev pub SkipIs : ℕ → Bytes → Option Bytes → Type 0
SkipIs n bytes none = Unit
SkipIs n bytes (some rest) =
    (front : Bytes) × (bytes ≡ front ++ rest) × (length front ≡ n) × All IsContinuation front

pub skip_continuation-SkipIs : (n : ℕ) (bytes : Bytes) → SkipIs n bytes (skip_continuation n bytes)
unfolding skip_continuation
skip_continuation-SkipIs zero bytes = ([], refl, refl, tt)
skip_continuation-SkipIs (suc n) [] = tt
skip_continuation-SkipIs (suc n) (b ∷ bytes) =
    if-cases (SkipIs (suc n) (b ∷ bytes)) (b / 64 == 2)
      (λ mark. longer mark (skip_continuation n bytes) (skip_continuation-SkipIs n bytes))
      (λ other. tt)
  where
    longer :
        (b / 64 == 2) ≡ true → (o : Option Bytes) → SkipIs n bytes o → SkipIs (suc n) (b ∷ bytes) o
    longer mark none h = tt
    longer mark (some rest) (front, split, len, all) =
        (b ∷ front, ap (λ bs. b ∷ bs) split, omega (arith, len), (ground (arith, mark), all))
