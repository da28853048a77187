-- ===== src/Monitor/Registry/Slots.antt =====
-- What adding and removing do to the slots of the registry.
use kscrash.Prelude.{
  ℕ, suc, ◌+◌, ◌≤◌, ◌≡◌, ◌⊎◌, inl, inr, ap, ◌∙◌, min, Bool-cases, refl, Bool, true, false, ◌||◌, [],
  ◌∷◌, Option, none, some, arith, ◌==◌, if◌then◌else◌, ==_refl, length,
}
use kscrash.Monitor.Registry.{
  Api, Slots, is_api, Placed, placed, already, full, Placed-cons, place, remove_duplicates,
  finish_add, add_monitor,
}

-- How often a monitor stands in the registry.
abbrev pub count : Api → Slots → ℕ
count api [] = 0
count api (slot ∷ slots) = (if is_api api slot then 1 else 0) + count api slots

abbrev pub is_hole : Option Api → Bool
is_hole none = true
is_hole (some api) = false

abbrev pub holes : Slots → ℕ
holes [] = 0
holes (slot ∷ slots) = (if is_hole slot then 1 else 0) + holes slots

-- What the first loop of `kscmr_addMonitor` has found out, or done.
abbrev PlaceIs : Api → Slots → Placed → Type 0
PlaceIs api slots (placed slots') =
    (length slots' ≡ length slots)
    × ((other : Api) → count other slots' ≡ (if api == other then 1 else 0) + count other slots)
PlaceIs api slots already = 1 ≤ count api slots
PlaceIs api slots full = (holes slots ≡ 0) × (count api slots ≡ 0)

Placed-cons-PlaceIs :
    (api x : Api) (slots : Slots) (later : Placed)
    → (x == api) ≡ false
    → PlaceIs api slots later
    → PlaceIs api (some x ∷ slots) (Placed-cons (some x) later)
Placed-cons-PlaceIs api x slots (placed slots') ne (l, c) =
    (omega (arith, l), λ other. omega (arith, c other))
Placed-cons-PlaceIs api x slots already ne h = omega arith
Placed-cons-PlaceIs api x slots full ne (h, c) = (omega arith, rw ne (omega arith))

place-PlaceIs : (api : Api) (slots : Slots) → PlaceIs api slots (place api slots)
unfolding place
place-PlaceIs api [] = (refl, refl)
place-PlaceIs api (none ∷ slots) = (refl, λ other. omega arith)
place-PlaceIs api (some x ∷ slots) = elim (Bool-cases (x == api)) [
  | inl same ↦ rw same (rw same (omega arith))
  | inr differs ↦
      rw differs
        (Placed-cons-PlaceIs api x slots (place api slots) differs (place-PlaceIs api slots))
]

length-remove_duplicates :
    (api : Api) (found : Bool) (slots : Slots)
    → length (remove_duplicates api found slots) ≡ length slots
unfolding remove_duplicates
length-remove_duplicates api found [] = refl
length-remove_duplicates api found (slot ∷ slots) =
    ap suc (length-remove_duplicates api (found || is_api api slot) slots)

abbrev once : Bool → ℕ → ℕ
once found n = if found then 0 else min 1 n

count-remove_duplicates :
    (api : Api) (found : Bool) (slots : Slots)
    → count api (remove_duplicates api found slots) ≡ once found (count api slots)
unfolding remove_duplicates
count-remove_duplicates api true [] = refl
count-remove_duplicates api false [] = refl
count-remove_duplicates api true (none ∷ slots) =
    omega (arith, count-remove_duplicates api true slots)
count-remove_duplicates api false (none ∷ slots) =
    ground (arith, count-remove_duplicates api false slots)
count-remove_duplicates api true (some x ∷ slots) =
    ground (arith, count-remove_duplicates api true slots)
count-remove_duplicates api false (some x ∷ slots) =
    ground (arith, count-remove_duplicates api true slots, count-remove_duplicates api false slots)

count-remove_duplicates_other :
    (api other : Api) (found : Bool) (slots : Slots)
    → (api == other) ≡ false
    → count other (remove_duplicates api found slots) ≡ count other slots
unfolding remove_duplicates
count-remove_duplicates_other api other found [] ne = refl
count-remove_duplicates_other api other found (none ∷ slots) ne =
    ground (arith, count-remove_duplicates_other api other found slots ne)
count-remove_duplicates_other api other found (some x ∷ slots) ne =
    ground (arith, count-remove_duplicates_other api other (found || (x == api)) slots ne)

-- What `kscmr_addMonitor` returns and leaves. It succeeds with exactly one copy of the monitor,
-- and every other as often as before, in an array of the same size. It fails with nothing
-- changed, for a monitor that is there already, or with no hole left.
abbrev pub AddIs : Api → Slots → Bool × Slots → Type 0
AddIs api slots (true, slots') =
    (count api slots' ≡ 1)
    × ((other : Api) → (api == other) ≡ false → count other slots' ≡ count other slots)
    × (length slots' ≡ length slots)
AddIs api slots (false, slots') = (slots' ≡ slots) × ((1 ≤ count api slots) ⊎ (holes slots ≡ 0))

finish_add-AddIs :
    (api : Api) (slots : Slots) (p : Placed)
    → PlaceIs api slots p
    → AddIs api slots (finish_add api slots p)
finish_add-AddIs api slots (placed slots') (l, c) = (
  count-remove_duplicates api false slots' ∙ rw (c api, ==_refl api) (omega arith),
  λ other ne.
      count-remove_duplicates_other api other false slots' ne ∙ c other ∙ rw ne (omega arith),
  length-remove_duplicates api false slots' ∙ l,
)
finish_add-AddIs api slots already h = (refl, inl h)
finish_add-AddIs api slots full h = (refl, inr h.0)

-- When `kscmr_addMonitor` succeeds, one copy of the monitor stands in the array and every other
-- monitor as often as before. When it fails, nothing has changed, and the monitor, told by its
-- address, was there already or no slot was free. Identifiers play no part: a monitor at another
-- address is added whatever its identifier is.
pub add_monitor-AddIs : (api : Api) (slots : Slots) → AddIs api slots (add_monitor slots (some api))
unfolding add_monitor
add_monitor-AddIs api slots = finish_add-AddIs api slots (place api slots) (place-PlaceIs api slots)
