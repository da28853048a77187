-- ===== src/Monitor/Handling/Threads.antt =====
-- The list of the threads that run a handler: what taking and freeing its slots do.
use kscrash.Prelude.{
  ℕ, zero, suc, ◌≤◌, ◌<◌, ◌≡◌, ◌≢◌, refl, sym, ap, ◌∙◌, inl, inr, Bool, true, false, ◌&&◌, List, [],
  ◌∷◌, some, arith, ltb, ◌==◌, length, get_elem?, get_or, set, take, replicate, Bool-cases,
  ==-eq_false, length-set,
}
use kscrash.Monitor.Handling.{
  State, is_among, are_all_free, begin_handling_exception, end_handling_exception,
  max_simultaneous_exceptions, initial,
}
use kscrash.Monitor.Registry.{Slots}

pub get_or-set_same : (ts : List ℕ) (i v : ℕ) → i < length ts → get_elem? (set ts i v) i ≡ some v
get_or-set_same [] i v h = absurd (omega (arith, h))
get_or-set_same (t ∷ ts) zero v h = refl
get_or-set_same (t ∷ ts) (suc i) v h = get_or-set_same ts i v (omega (arith, h))

pub get_elem-set_other :
    (ts : List ℕ) (i j v : ℕ) → i ≢ j → get_elem? (set ts i v) j ≡ get_elem? ts j
get_elem-set_other [] i j v h = refl
get_elem-set_other (t ∷ ts) zero zero v h = absurd (h refl)
get_elem-set_other (t ∷ ts) zero (suc j) v h = refl
get_elem-set_other (t ∷ ts) (suc i) zero v h = refl
get_elem-set_other (t ∷ ts) (suc i) (suc j) v h = get_elem-set_other ts i j v (λ e. h (ap suc e))

get_or-set_other : (ts : List ℕ) (i j v : ℕ) → i ≢ j → get_or (set ts i v) j 0 ≡ get_or ts j 0
get_or-set_other [] i j v h = refl
get_or-set_other (t ∷ ts) zero zero v h = absurd (h refl)
get_or-set_other (t ∷ ts) zero (suc j) v h = refl
get_or-set_other (t ∷ ts) (suc i) zero v h = refl
get_or-set_other (t ∷ ts) (suc i) (suc j) v h = get_or-set_other ts i j v (λ e. h (ap suc e))

get_or-set_zero : (ts : List ℕ) (i j : ℕ) → get_or ts j 0 ≡ 0 → get_or (set ts i 0) j 0 ≡ 0
get_or-set_zero [] i j h = refl
get_or-set_zero (t ∷ ts) zero zero h = refl
get_or-set_zero (t ∷ ts) zero (suc j) h = h
get_or-set_zero (t ∷ ts) (suc i) zero h = h
get_or-set_zero (t ∷ ts) (suc i) (suc j) h = get_or-set_zero ts i j h

-- Freeing the slot that was taken gives the list back.
pub set-set : (ts : List ℕ) (i v : ℕ) → get_or ts i 0 ≡ 0 → set (set ts i v) i 0 ≡ ts
set-set [] i v h = refl
set-set (t ∷ ts) zero v h = ap (λ x. x ∷ ts) (sym h)
set-set (t ∷ ts) (suc i) v h = ap (◌∷◌ t) (set-set ts i v h)

are_all_free-get_or : (ts : List ℕ) (i : ℕ) → are_all_free ts ≡ true → get_or ts i 0 ≡ 0
unfolding are_all_free
are_all_free-get_or [] i h = refl
are_all_free-get_or (zero ∷ ts) zero h = refl
are_all_free-get_or (suc t ∷ ts) zero h = absurd (ground (arith, h))
are_all_free-get_or (t ∷ ts) (suc i) h = are_all_free-get_or ts i (and_right (t == 0) h)
  where
    and_right : {b : Bool} (a : Bool) → (a && b) ≡ true → b ≡ true
    and_right true h = h
    and_right false h = absurd (ground (arith, h))

pub is_among-take :
    (ts : List ℕ) (k i t offending : ℕ)
    → i < k
    → get_elem? ts i ≡ some t
    → is_among (take k ts) offending t ≡ true
unfolding is_among
is_among-take [] k i t offending h e = absurd (cc)
is_among-take (x ∷ ts) zero i t offending h e = absurd (omega (arith, h))
is_among-take (x ∷ ts) (suc k) zero t offending h e = grind arith
is_among-take (x ∷ ts) (suc k) (suc i) t offending h e =
    ground (arith, is_among-take ts k i t offending (omega (arith, h)) e)

get_or-replicate : (n i : ℕ) → get_or (replicate {A = ℕ} n 0) i 0 ≡ 0
get_or-replicate zero i = refl
get_or-replicate (suc n) zero = refl
get_or-replicate (suc n) (suc i) = get_or-replicate n i

module _ {World : Type 0} where
  -- The list has its full size, and no slot at or above the counter is taken.
  abbrev pub IsValid : State World → Type 0
  IsValid s =
      (length (s.threads_handling_exceptions) ≡ max_simultaneous_exceptions)
      × ((i : ℕ) → s.handling_exception_index ≤ i → get_or (s.threads_handling_exceptions) i 0 ≡ 0)

  pub begin_handling_exception-IsValid :
      (thread : ℕ) (s : State World) → IsValid s → IsValid (begin_handling_exception thread s)
  unfolding begin_handling_exception
  begin_handling_exception-IsValid thread s (len, free) =
      elim (Bool-cases (ltb (s.handling_exception_index) max_simultaneous_exceptions)) [
        | inl below ↦ rw below (
          length-set (s.threads_handling_exceptions) (s.handling_exception_index) thread ∙ len,
          λ i h.
              get_or-set_other (s.threads_handling_exceptions) (s.handling_exception_index) i thread
                (λ e. omega (arith, e, h))
              ∙ free i (omega (arith, h)),
        )
        | inr above ↦ rw above (len, λ i h. free i (omega (arith, h)))
      ]

  pub end_handling_exception-IsValid :
      (index : ℕ) (s : State World)
      → index < max_simultaneous_exceptions
      → IsValid s
      → IsValid (end_handling_exception index s)
  unfolding end_handling_exception
  end_handling_exception-IsValid index s inside (len, free) = (
    length-set (s.threads_handling_exceptions) index 0 ∙ len,
    elim (Bool-cases (are_all_free (set (s.threads_handling_exceptions) index 0))) [
      | inl all ↦ λ i h. are_all_free-get_or (set (s.threads_handling_exceptions) index 0) i all
      | inr some_left ↦
          rw
            (
              some_left,
              ==-eq_false index max_simultaneous_exceptions (λ e. omega (arith, e, inside)),
            )
            (λ i h. get_or-set_zero (s.threads_handling_exceptions) index i (free i h))
    ],
  )

-- What `init` leaves is in order.
pub initial-IsValid :
    (World : Type 0) (slots : Slots) → IsValid {World = World} (record initial { monitors = slots })
initial-IsValid World slots = (refl, λ i h. get_or-replicate max_simultaneous_exceptions i)
