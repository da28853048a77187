-- ===== src/Cursor/Unwind/Walk.antt =====
-- How a walk up the stack comes to an end.
use kscrash.Prelude.{
  ℕ, zero, suc, ◌+◌, ◌≤◌, ◌<◌, ◌≡◌, ◌≢◌, refl, ◌∙◌, true, false, ◌&&◌, ◌||◌, not, Option, none,
  some, List, [], ◌∷◌, length, arith, ◌==◌, leb, le→leb, if-cases, if-both,
}
use kscrash.Dwarf.Registers.{Frame}
use kscrash.Dwarf.Unwind.{Outcome, done, returned_false, of_option, ◌>>=◌}
use kscrash.Cursor.Unwind.{
  UnwindMethod, no_method, compact_unwind, dwarf, frame_pointer, Environment, Context, Cursor,
  Advance, advanced, stopped, unfinished, or_else, first_of_methods, take_result, wrong_direction,
  compact_in_image, try_compact_unwind, try_dwarf_unwind, step_frame, try_frame_pointer_unwind,
  try_unwind_with_method, update_by_frame, update_with_method, fall_back, read_frame,
  update_state_after_lr, succeed, advance_first, uses_link_register, advance_link_register,
  advance_cursor, reset,
}

-- What a caller sees who advances a cursor until it stops: the addresses and the last state, or a
-- lack of fuel.
pub data Walked : Type 0 where
  walked : List ℕ → Cursor → Walked
  endless : Walked

abbrev pub then_walk : ℕ → Walked → Walked
then_walk address (walked addresses c) = walked (address ∷ addresses) c
then_walk address endless = endless

-- All of a value that a call gives back if it returns true, and that it comes to an end.
abbrev Gives {ℓ} : {A : Type ℓ} → (A → Type 0) → Outcome A → Type 0
Gives P (done a) = P a
Gives P returned_false = Unit
Gives P Outcome.unfinished = ⊥

or_else-Gives {ℓ} :
    {A : Type ℓ} (P : A → Type 0) (first second : Outcome A)
    → Gives P first
    → Gives P second
    → Gives P (or_else first second)
or_else-Gives P (done a) second h k = h
or_else-Gives P returned_false second h k = k
or_else-Gives P Outcome.unfinished second h k = h

first_of_methods-Gives {ℓ} :
    {A : Type ℓ} (P : A → Type 0) (try_method : UnwindMethod → Outcome A)
    (methods : List UnwindMethod)
    → ((m : UnwindMethod) → Gives P (try_method m))
    → Gives P (first_of_methods try_method methods)
unfolding first_of_methods
first_of_methods-Gives P f [] h = tt
first_of_methods-Gives P f (no_method ∷ ms) h = tt
first_of_methods-Gives P f (compact_unwind ∷ ms) h =
    or_else-Gives P (f compact_unwind) (first_of_methods f ms) (h compact_unwind)
      (first_of_methods-Gives P f ms h)
first_of_methods-Gives P f (dwarf ∷ ms) h =
    or_else-Gives P (f dwarf) (first_of_methods f ms) (h dwarf) (first_of_methods-Gives P f ms h)
first_of_methods-Gives P f (frame_pointer ∷ ms) h =
    or_else-Gives P (f frame_pointer) (first_of_methods f ms) (h frame_pointer)
      (first_of_methods-Gives P f ms h)

>>=-Gives {ℓ κ} :
    {A : Type ℓ} {B : Type κ} (P : B → Type 0) (m : Outcome A) (f : A → Outcome B)
    → m ≢ Outcome.unfinished
    → ((a : A) → Gives P (f a))
    → Gives P (m >>= f)
>>=-Gives P (done a) f ends h = h a
>>=-Gives P returned_false f ends h = tt
>>=-Gives P Outcome.unfinished f ends h = ends refl

module _ (e : Environment) (fuel : ℕ) where
  abbrev pub on_advance : Advance → (Cursor → Walked) → Walked
  on_advance (advanced c) next = then_walk (c.base.stack_entry.address) (next c)
  on_advance (stopped c) next = walked [] c
  on_advance unfinished next = endless

  unfoldable pub walk : ℕ → Cursor → Walked
  walk zero c = endless
  walk (suc rounds) c = let rest = walk rounds in on_advance (advance_cursor e fuel c) rest

  -- The DWARF unwinder comes to an end, whatever it is asked about.
  abbrev pub DwarfEnds : Type 0
  DwarfEnds = (pc : ℕ) (frame : Frame) → try_dwarf_unwind e fuel pc frame ≢ Outcome.unfinished

  of_option_ends {ℓ} : {A : Type ℓ} (o : Option A) → of_option o ≢ Outcome.unfinished
  of_option_ends none h = cc
  of_option_ends (some a) h = cc

  compact_ends : (pc : ℕ) (frame : Frame) → try_compact_unwind e fuel pc frame ≢ Outcome.unfinished
  unfolding try_compact_unwind
  compact_ends pc frame = of_option_ends (compact_in_image e fuel pc frame (e.image_at pc))

  module _ (ends : DwarfEnds) (max : ℕ) where
    abbrev SameMax : Context → Type 0
    SameMax c = c.max_stack_depth ≡ max

    abbrev SameMaxAt : ℕ × Context → Type 0
    SameMaxAt r = SameMax (r.1)

    step_frame-SameMax :
        (c : Context) (o : Option (ℕ × ℕ)) → SameMax c → Gives SameMaxAt (step_frame e fuel c o)
    step_frame-SameMax c none h = tt
    step_frame-SameMax c (some (previous, return_address)) h =
        if-both (Gives SameMaxAt) (return_address == 0 || wrong_direction previous (c.registers.fp))
          tt h

    then_frame-SameMax :
        (c : Context) (o : Outcome (ℕ × Context))
        → Gives SameMaxAt o
        → Gives SameMaxAt
            (o >>= λ r. done (r.0, record (r.1) { pc = r.0; last_method = frame_pointer }))
    then_frame-SameMax c (done r) h = h
    then_frame-SameMax c returned_false h = tt
    then_frame-SameMax c Outcome.unfinished h = h

    try_unwind_with_method-SameMax :
        (c : Context)
        → SameMax c
        → (m : UnwindMethod) → Gives SameMaxAt (try_unwind_with_method e fuel c m)
    unfolding try_frame_pointer_unwind
    try_unwind_with_method-SameMax c h no_method = tt
    try_unwind_with_method-SameMax c h compact_unwind =
        >>=-Gives SameMaxAt (try_compact_unwind e fuel (c.pc) (c.registers))
          (λ u. done (u.return_address, take_result compact_unwind u c))
          (compact_ends (c.pc) (c.registers)) (λ u. h)
    try_unwind_with_method-SameMax c h dwarf =
        >>=-Gives SameMaxAt (try_dwarf_unwind e fuel (c.pc) (c.registers))
          (λ u. done (u.return_address, take_result dwarf u c)) (ends (c.pc) (c.registers)) (λ u. h)
    try_unwind_with_method-SameMax c h frame_pointer =
        then_frame-SameMax c (try_frame_pointer_unwind e fuel c) (
          if-both (Gives SameMaxAt) (c.registers.fp == 0) tt
            (step_frame-SameMax c (e.safe_pair (c.registers.fp)) h))

    update_by_frame-SameMax :
        (c : Context) (o : Option (ℕ × ℕ)) → SameMax c → Gives SameMax (update_by_frame e fuel c o)
    update_by_frame-SameMax c none h = tt
    update_by_frame-SameMax c (some (previous, return_address)) h =
        if-both (Gives SameMax) (wrong_direction previous (c.registers.fp)) tt h

    update_with_method-SameMax :
        (c : Context)
        → SameMax c
        → (m : UnwindMethod) → Gives SameMax (update_with_method e fuel c m)
    update_with_method-SameMax c h no_method = tt
    update_with_method-SameMax c h compact_unwind =
        >>=-Gives SameMax (try_compact_unwind e fuel (c.pc) (c.registers))
          (λ u. done (take_result compact_unwind u c)) (compact_ends (c.pc) (c.registers)) (λ u. h)
    update_with_method-SameMax c h dwarf =
        >>=-Gives SameMax (try_dwarf_unwind e fuel (c.pc) (c.registers))
          (λ u. done (take_result dwarf u c)) (ends (c.pc) (c.registers)) (λ u. h)
    update_with_method-SameMax c h frame_pointer =
        if-both (Gives SameMax) (c.registers.fp == 0) tt
          (update_by_frame-SameMax c (e.safe_pair (c.registers.fp)) h)

    fall_back-SameMax :
        (c : Context) (o : Option (ℕ × ℕ)) → SameMax c → SameMax (fall_back e fuel c o)
    fall_back-SameMax c none h = h
    fall_back-SameMax c (some (previous, return_address)) h =
        if-both SameMax (wrong_direction previous (c.registers.fp)) h h

    update_state_after_lr-SameMax :
        (c : Context) → SameMax c → Gives SameMax (update_state_after_lr e fuel c)
    unfolding update_state_after_lr
    update_state_after_lr-SameMax c h =
        or_else-Gives SameMax (first_of_methods (update_with_method e fuel c) (c.methods))
          (done (fall_back e fuel c (read_frame e fuel c)))
          (first_of_methods-Gives SameMax (update_with_method e fuel c) (c.methods)
            (update_with_method-SameMax c h))
          (fall_back-SameMax c (read_frame e fuel c) h)

    -- What an advance below the largest depth does to the depth.
    abbrev AdvanceIs : Cursor → Advance → Type 0
    AdvanceIs c (advanced c') =
        SameMax (c'.context)
        × (c'.base.current_depth ≡ c.base.current_depth + 1)
        × (c'.base.has_given_up ≡ c.base.has_given_up)
    AdvanceIs c (stopped c') = c'.base.has_given_up ≡ c.base.has_given_up
    AdvanceIs c unfinished = ⊥

    succeed-AdvanceIs :
        (c : Cursor) (o : Outcome (ℕ × Context))
        → Gives SameMaxAt o
        → AdvanceIs c (succeed e fuel c o)
    succeed-AdvanceIs c (done r) h = (h, refl, refl)
    succeed-AdvanceIs c returned_false h = refl
    succeed-AdvanceIs c Outcome.unfinished h = h

    lr-SameMax :
        (address : ℕ) (o : Outcome Context)
        → Gives SameMax o
        → Gives SameMaxAt
            (o >>= λ context. done (address, record context { last_method = no_method }))
    lr-SameMax address (done c) h = h
    lr-SameMax address returned_false h = tt
    lr-SameMax address Outcome.unfinished h = h

    advance_cursor-AdvanceIs :
        (c : Cursor)
        → SameMax (c.context)
        → c.base.current_depth < max
        → AdvanceIs c (advance_cursor e fuel c)
    unfolding advance_cursor advance_first advance_link_register
    advance_cursor-AdvanceIs c h room =
        if-cases (AdvanceIs c) (leb (c.context.max_stack_depth) (c.base.current_depth))
          (λ deep. absurd (ground (arith, deep, h, room)))
          (λ below.
            if-both (AdvanceIs c) (c.context.is_first_frame)
              (if-both (AdvanceIs c) (e.instruction_address == 0) refl (h, refl, refl))
              (if-both (AdvanceIs c)
                (uses_link_register e fuel (e.arch)
                  && not (c.context.used_link_register)
                  && not (c.context.registers.lr == 0))
                (succeed-AdvanceIs c _ (
                  lr-SameMax (c.context.registers.lr) _ (
                    update_state_after_lr-SameMax (record (c.context) { used_link_register = true })
                      h)))
                (succeed-AdvanceIs c
                  (first_of_methods (try_unwind_with_method e fuel (c.context)) (c.context.methods))
                  (first_of_methods-Gives SameMaxAt (try_unwind_with_method e fuel (c.context))
                    (c.context.methods) (try_unwind_with_method-SameMax (c.context) h)))))

    -- The walk ends with no more addresses than there is room for, and has given up if and only if
    -- there was no more room.
    abbrev pub Finished : ℕ → Walked → Type 0
    Finished room (walked addresses c) =
        (length addresses ≤ room) × (c.base.has_given_up ≡ (length addresses == room))
    Finished room endless = ⊥

    advance_full :
        (c : Cursor)
        → SameMax (c.context)
        → c.base.current_depth ≡ max
        → advance_cursor e fuel c
          ≡ stopped (record c { base = record (c.base) { has_given_up = true } })
    unfolding advance_cursor
    advance_full c h full =
        rw (le→leb (c.context.max_stack_depth) (c.base.current_depth) (omega (arith, h, full)))

    on_advance-Finished :
        (room : ℕ) (next : Cursor → Walked) (c : Cursor) (a : Advance)
        → c.base.has_given_up ≡ false
        → AdvanceIs c a
        → ((c' : Cursor)
            → SameMax (c'.context)
            → c'.base.current_depth ≡ c.base.current_depth + 1
            → c'.base.has_given_up ≡ false
            → Finished room (next c'))
        → Finished (suc room) (on_advance a next)
    on_advance-Finished room next c (stopped c') going h later =
        (omega arith, ground (arith, h, going))
    on_advance-Finished room next c unfinished going h later = h
    on_advance-Finished room next c (advanced c') going h later =
        more (next c') (later c' (h.0) (h.1) (h.2 ∙ going))
      where
        more :
            (w : Walked)
            → Finished room w
            → Finished (suc room) (then_walk (c'.base.stack_entry.address) w)
        more (walked addresses last) f = (omega (arith, f.0), ground (arith, f.1))
        more endless f = f

    walk-Finished :
        (rounds room : ℕ) (c : Cursor)
        → SameMax (c.context)
        → c.base.has_given_up ≡ false
        → c.base.current_depth + room ≡ max
        → room < rounds
        → Finished room (walk rounds c)
    unfolding walk
    walk-Finished zero room c same going depth enough = absurd (omega (arith, enough))
    walk-Finished (suc rounds) zero c same going depth enough =
        rw (advance_full c same (omega (arith, depth))) (omega arith, refl)
    walk-Finished (suc rounds) (suc room) c same going depth enough =
        on_advance-Finished room (walk rounds) c (advance_cursor e fuel c) going
          (advance_cursor-AdvanceIs c same (omega (arith, depth)))
          (λ c' same' next going'.
            walk-Finished rounds room c' same' going' (omega (arith, next, depth))
              (omega (arith, enough)))

  -- A walk up the stack from a reset cursor ends, whatever the memory and the images hold: it gives
  -- no more addresses than the largest depth, and the cursor says that it has given up if and only
  -- if it gave that many. The unwinder of the DWARF format comes to an end on what it is asked.
  pub walk-reset :
      (ends : DwarfEnds) (max_stack_depth : ℕ) (methods : List UnwindMethod)
      → Finished ends max_stack_depth max_stack_depth
          (walk (suc max_stack_depth) (reset max_stack_depth methods))
  unfolding reset
  walk-reset ends max methods =
      walk-Finished ends max (suc max) max (reset max methods) refl refl (omega arith) (omega arith)
