-- ===== src/Cursor/Unwind/Chain.antt =====
-- Where the frame pointers lead a walk.
use kscrash.Prelude.{
  subst, ℕ, zero, suc, ◌+◌, ◌≤◌, ◌<◌, ◌≡◌, ◌≢◌, refl, ap, ◌⊎◌, inl, inr, true, false, List, [], ◌∷◌,
  arith, Option-cases,
}
use kscrash.Cursor.Unwind.{
  UnwindMethod, no_method, frame_pointer, Environment, Cursor, Advance, advanced, stopped,
  unfinished, first_of_methods, try_frame_pointer_unwind, advance_cursor,
}

-- The methods of `kssc_initWithMachineContext`.
abbrev pub frame_methods : List UnwindMethod
frame_methods = frame_pointer ∷ no_method ∷ no_method ∷ []

module _ (e : Environment) (fuel : ℕ) where
  -- A cursor that goes by frame pointers alone, and is past the first frame and that of the link
  -- register.
  abbrev pub IsPastFirst : Cursor → Type 0
  IsPastFirst c =
      (c.context.methods ≡ frame_methods)
      × (c.context.is_first_frame ≡ false)
      × (c.context.used_link_register ≡ true)

  -- The frame at the old frame pointer is where the new one and the address come from.
  abbrev FromFrame : Cursor → Cursor → Type 0
  FromFrame c c' =
      (c.context.registers.fp ≢ 0)
      × ((c'.context.registers.fp ≡ 0) ⊎ (c.context.registers.fp < c'.context.registers.fp))
      × (c'.base.current_depth ≡ suc (c.base.current_depth))
      × IsPastFirst c'

  advance_cursor-FromFrame :
      (c c' : Cursor) → IsPastFirst c → advance_cursor e fuel c ≡ advanced c' → FromFrame c c'
  unfolding advance_cursor first_of_methods try_frame_pointer_unwind
  advance_cursor-FromFrame c c' (methods, first, lr) h =
      elim (Option-cases (e.safe_pair (c.context.registers.fp))) [
        | inl missing ↦ absurd (ground (arith, missing))
        | inr (p, found) ↦ (
          (λ zero_fp. ground (arith, zero_fp)),
          ground arith,
          ground arith,
          (ground arith, ground arith, ground arith),
        )
      ]

  -- So many calls of `advanceCursor` on end, up to the first that does not return true.
  abbrev then_times : (Cursor → Advance) → Advance → Advance
  then_times again (advanced c) = again c
  then_times again (stopped c) = stopped c
  then_times again unfinished = unfinished

  unfoldable pub advance_times : ℕ → Cursor → Advance
  advance_times zero c = advanced c
  advance_times (suc n) c = then_times (advance_times n) (advance_cursor e fuel c)

  abbrev cursor_or : Cursor → Advance → Cursor
  cursor_or c (advanced c') = c'
  cursor_or c (stopped c') = c
  cursor_or c unfinished = c

  -- From a frame pointer of 0 there is no frame.
  no_frame :
      (c c' : Cursor)
      → IsPastFirst c
      → c.context.registers.fp ≡ 0
      → advance_cursor e fuel c ≢ advanced c'
  no_frame c c' past at_zero h = (advance_cursor-FromFrame c c' past h).0 at_zero

  advance_times-stuck :
      (n : ℕ) (c c' : Cursor)
      → IsPastFirst c
      → c.context.registers.fp ≡ 0
      → advance_times n c ≡ advanced c'
      → c ≡ c'
  unfolding advance_times
  advance_times-stuck zero c c' past at_zero h = ap (cursor_or c) h
  advance_times-stuck (suc n) c c' past at_zero h = none_left (advance_cursor e fuel c) refl h
    where
      none_left :
          (a : Advance)
          → advance_cursor e fuel c ≡ a
          → then_times (advance_times n) a ≡ advanced c'
          → c ≡ c'
      none_left (advanced c1) at h = absurd (no_frame c c1 past at_zero at)
      none_left (stopped c1) at h = absurd (cc h)
      none_left unfinished at h = absurd (cc h)

  -- Where so many calls lead.
  abbrev pub IsUp : ℕ → Cursor → Cursor → Type 0
  IsUp n c c' =
      (c'.base.current_depth ≡ c.base.current_depth + n)
      × ((c.context.registers.fp + n ≤ c'.context.registers.fp)
          ⊎ ((c'.context.registers.fp ≡ 0)
              × ((c'' : Cursor) → advance_cursor e fuel c' ≢ advanced c'')))

  IsUp-frame :
      (n : ℕ) (c c1 c' : Cursor)
      → FromFrame c c1
      → advance_times n c1 ≡ advanced c'
      → IsUp n c1 c'
      → IsUp (suc n) c c'
  IsUp-frame n c c1 c' (some_fp, up, depth, past) h (depths, inr over) =
      (omega (arith, depth, depths), inr over)
  IsUp-frame n c c1 c' (some_fp, inr up, depth, past) h (depths, inl further) =
      (omega (arith, depth, depths), inl (omega (arith, up, further)))
  IsUp-frame n c c1 c' (some_fp, inl at_zero, depth, past) h (depths, inl further) =
      let same = advance_times-stuck n c1 c' past at_zero h in
      (
        omega (arith, depth, depths),
        inr (
            subst
              (λ c2.
                (c2.context.registers.fp ≡ 0)
                × ((c'' : Cursor) → advance_cursor e fuel c2 ≢ advanced c''))
              same (at_zero, λ c''. no_frame c1 c'' past at_zero)),
      )

  -- Past the first frame and that of the link register, a walk by frame pointers alone moves up the
  -- stack, whatever the stack holds, a loop of frames included. After any number of calls of
  -- `advanceCursor` that return true, the frame pointer is at least that many bytes above the one
  -- at the start, or it is 0, where the walk can go no further. The depth has grown by the number
  -- of calls.
  pub advance_times-IsUp :
      (n : ℕ) (c c' : Cursor) → IsPastFirst c → advance_times n c ≡ advanced c' → IsUp n c c'
  unfolding advance_times
  advance_times-IsUp zero c c' past h =
      let same = ap (cursor_or c) h in
      (
        omega (arith, ap (λ (c : Cursor). c.base.current_depth) same),
        inl (omega (arith, ap (λ (c : Cursor). c.context.registers.fp) same)),
      )
  advance_times-IsUp (suc n) c c' past h =
      first_call (advance_cursor e fuel c) refl (λ c1 past1. advance_times-IsUp n c1 c' past1) h
    where
      first_call :
          (a : Advance)
          → advance_cursor e fuel c ≡ a
          → ((c1 : Cursor) → IsPastFirst c1 → advance_times n c1 ≡ advanced c' → IsUp n c1 c')
          → then_times (advance_times n) a ≡ advanced c'
          → IsUp (suc n) c c'
      first_call (advanced c1) at again h =
          let frame = advance_cursor-FromFrame c c1 past at in
          IsUp-frame n c c1 c' frame h (again c1 (frame.3) h)
      first_call (stopped c1) at again h = absurd (cc h)
      first_call unfinished at again h = absurd (cc h)
