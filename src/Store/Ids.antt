-- ===== src/Store/Ids.antt =====
-- The report IDs of KSCrashReportStoreC.c: `initializeIDs` and `getNextUniqueID`.
use kscrash.Prelude.{ℕ, zero, suc, ◌+◌, ◌*◌, ◌/◌, ◌%◌, ◌≤◌, ◌<◌, ◌≡◌, ap, ◌∙◌, ◌⊎◌, inl, inr, arith}
use kscrash.Dwarf.Reader.{word_mod}

-- The fields of `struct tm` that are read, and their ranges. The year is counted from 1900; up to
-- 30,000 the shift keeps to 63 bits.
pub record Time : Type 0 where
  pub tm_sec : ℕ
  pub tm_min : ℕ
  pub tm_hour : ℕ
  pub tm_yday : ℕ
  pub tm_year : ℕ

abbrev pub IsTime : Time → Type 0
IsTime t =
    (t.tm_sec ≤ 60) × (t.tm_min ≤ 59) × (t.tm_hour ≤ 23) × (t.tm_yday ≤ 365) × (t.tm_year ≤ 30_000)

-- The calendar's order.
abbrev Below : ℕ → ℕ → Type 0 → Type 0
Below a b Later = (a < b) ⊎ ((a ≡ b) × Later)

abbrev pub Earlier : Time → Time → Type 0
Earlier t u = Below (t.tm_year) (u.tm_year) (
    Below (t.tm_yday) (u.tm_yday)
      (Below (t.tm_hour) (u.tm_hour) (Below (t.tm_min) (u.tm_min) (t.tm_sec < u.tm_sec))))

-- `g_nextUniqueIDHigh` and `g_nextUniqueIDLow`, a number of 64 and one of 32 bits.
pub record UniqueIds : Type 0 where
  pub high : ℕ
  pub low : ℕ

abbrev low_mod : ℕ
low_mod = 4_294_967_296

-- `baseID` in front of the shift.
abbrev pub base_of : Time → ℕ
base_of t =
    t.tm_sec + t.tm_min * 61 + t.tm_hour * 3_660 + t.tm_yday * 87_840 + t.tm_year * 32_149_440

-- `initializeIDs`.
unfoldable pub initialize_ids : Time → UniqueIds
initialize_ids t =
    let base_id = base_of t * 8_388_608 % word_mod in
    record { high = base_id / low_mod * low_mod; low = base_id % low_mod }

-- `getNextUniqueID`: the ID, and the state after it.
unfoldable pub get_next_unique_id : UniqueIds → ℕ × UniqueIds
get_next_unique_id ids =
    ((ids.high + ids.low) % word_mod, record ids { low = suc (ids.low) % low_mod })

-- The ID that is given after `n` others.
unfoldable pub nth_id : ℕ → UniqueIds → ℕ
nth_id zero ids = (get_next_unique_id ids).0
nth_id (suc n) ids = nth_id n ((get_next_unique_id ids).1)

base_of-Earlier : (t u : Time) → IsTime t → IsTime u → Earlier t u → base_of t < base_of u
base_of-Earlier t u (a, b, c, d, _) v (inl year) = omega (arith, a, b, c, d, year)
base_of-Earlier t u (a, b, c, _, _) v (inr (y, inl day)) = omega (arith, a, b, c, y, day)
base_of-Earlier t u (a, b, _, _, _) v (inr (y, inr (d, inl hour))) = omega (arith, a, b, y, d, hour)
base_of-Earlier t u (a, _, _, _, _) v (inr (y, inr (d, inr (h, inl minute)))) =
    omega (arith, a, y, d, h, minute)
base_of-Earlier t u w v (inr (y, inr (d, inr (h, inr (m, second))))) =
    omega (arith, y, d, h, m, second)

-- Within a launch the IDs count up.
nth_id-high :
    (n : ℕ) (ids : UniqueIds)
    → ids.low + n < low_mod
    → nth_id n ids ≡ (ids.high + ids.low + n) % word_mod
unfolding nth_id get_next_unique_id
nth_id-high zero ids h = omega arith
nth_id-high (suc n) ids h =
    nth_id-high n (record ids { low = suc (ids.low) % low_mod }) (omega (arith, h))
    ∙ ap (λ x. x % word_mod) (omega (arith, h))

-- The IDs of a launch follow its base, of which 23 bits are free.
nth_id-initialize :
    (t : Time) (n : ℕ)
    → IsTime t
    → n < 8_388_608
    → nth_id n (initialize_ids t) ≡ base_of t * 8_388_608 + n
unfolding initialize_ids
nth_id-initialize t n (a, b, c, d, e) h =
    nth_id-high n (initialize_ids t) (omega arith) ∙ omega (arith, a, b, c, d, e, h)

-- A launch gives every report a larger ID than any report of a launch at an earlier time, and than
-- the reports before it in its own, as long as a launch gives fewer than 2^23. It supposes that
-- the fields of the times are in their ranges, up to the year 31900.
pub nth_id-increases :
    (t u : Time) (m n : ℕ)
    → IsTime t
    → IsTime u
    → m < 8_388_608
    → n < 8_388_608
    → (Earlier t u → nth_id m (initialize_ids t) < nth_id n (initialize_ids u))
      × (m < n → nth_id m (initialize_ids t) < nth_id n (initialize_ids t))
nth_id-increases t u m n p q h k =
    let first = nth_id-initialize t m p h in
    (
      λ earlier.
          omega (arith, first, nth_id-initialize u n q k, base_of-Earlier t u p q earlier, h),
      λ less. omega (arith, first, nth_id-initialize t n p k, less),
    )
