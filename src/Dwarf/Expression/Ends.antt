-- ===== src/Dwarf/Expression/Ends.antt =====
-- `evaluateDwarfExpression` comes to an end.
use kscrash.Prelude.{
  ℕ, zero, suc, ◌+◌, ◌-◌, ◌≤◌, ◌<◌, ◌≡◌, ◌≢◌, Bool, true, false, ◌&&◌, ◌||◌, Option, none, some,
  List, [], ◌∷◌, length, arith, ◌==◌, ltb, leb, if-cases, if-both,
}
use kscrash.Dwarf.Reader.{
  Memory, Reader, reader_at, has_data, little_endian, read_unsigned, read_signed, read_uleb128,
  read_sleb128,
}
use kscrash.Dwarf.Registers.{Arch, Frame, get_register_value}
use kscrash.Dwarf.Forward.{
  Ahead, Ahead-refl, Ahead-trans, read_unsigned-Ahead, read_signed-Ahead, read_uleb128-Ahead,
  read_sleb128-Ahead,
}
use kscrash.Dwarf.Expression.{
  Machine, unfinished, expr_stack_max, expr_push, expr_pop, with_stack, push, push_read,
  push_option, push_sum, popped, on_pop, binary, add_words, subtract_words, sized, plus_uconst,
  bregx, push_constant, operate, step, run, run_on, outcome, evaluate_dwarf_expression, known_cfa,
}

-- What a round gives stands at `r` or behind it, with no more than 16 values on the stack.
abbrev Kept : Reader → Option Machine → Type 0
Kept r none = Unit
Kept r (some m) = Ahead r (m.reader) × (length (m.stack) ≤ expr_stack_max)

push-Kept : (r : Reader) (m : Machine) (value : ℕ) → Ahead r (m.reader) → Kept r (push m value)
unfolding expr_push
push-Kept r m value h =
    if-cases (λ x. Kept r (with_stack m x)) (leb expr_stack_max (length (m.stack))) (λ full. tt)
      (λ room. (h, ground (arith, room)))

push_option-Kept :
    (r : Reader) (m : Machine) (o : Option ℕ) → Ahead r (m.reader) → Kept r (push_option m o)
push_option-Kept r m none h = tt
push_option-Kept r m (some value) h = push-Kept r m value h

push_sum-Kept :
    (r : Reader) (m : Machine) (o : Option ℕ) (offset : ℕ × Reader)
    → Ahead r (offset.1)
    → Kept r (push_sum m o offset)
push_sum-Kept r m none (offset, r') h = tt
push_sum-Kept r m (some value) (offset, r') h =
    push-Kept r (record m { reader = r' }) (add_words value offset) h

-- What follows a pop keeps the bound if it does so on the machine without the value.
on_pop-Kept :
    (r : Reader) (next : ℕ → Machine → Option Machine) (m : Machine)
    → Ahead r (m.reader)
    → ((value : ℕ) (m' : Machine) → Ahead r (m'.reader) → Kept r (next value m'))
    → Kept r (on_pop next m)
on_pop-Kept r next m h keeps = popped-Kept (m.stack)
  where
    popped-Kept : (stack : List ℕ) → Kept r (popped m (expr_pop stack) next)
    popped-Kept [] = tt
    popped-Kept (value ∷ stack) = keeps value (record m { stack = stack }) h

module _ (memory : Memory) (arch : Arch) (cfa : ℕ) (frame : Frame) where
  push_constant-Kept :
      (op : ℕ) (m : Machine) → Kept (m.reader) (push_constant memory arch cfa frame op m)
  unfolding push_constant
  push_constant-Kept op m = if-both P (op == 0x08) (u 1) (
      if-both P (op == 0x09) (s 1) (
        if-both P (op == 0x0A) (u 2) (
          if-both P (op == 0x0B) (s 2) (
            if-both P (op == 0x0C) (u 4) (
              if-both P (op == 0x0D) (s 4) (
                if-both P (op == 0x0E) (u 8) (
                  if-both P (op == 0x0F) (s 8) (
                    if-both P (op == 0x10)
                      (read-Kept (read_uleb128 memory) (read_uleb128-Ahead memory r))
                      (read-Kept (read_sleb128 memory) (read_sleb128-Ahead memory r))))))))))
    where
      r : Reader
      r = m.reader

      P : Option Machine → Type 0
      P = Kept (m.reader)

      read-Kept :
          (read : Reader → ℕ × Reader) → Ahead r ((read r).1) → Kept r (push_read m (read r))
      read-Kept read h = push-Kept r (record m { reader = (read r).1 }) ((read r).0) h

      u : (n : ℕ) → Kept r (sized memory arch cfa frame n (read_unsigned memory n) m)
      u n =
          if-both P (has_data r n)
            (read-Kept (read_unsigned memory n) (read_unsigned-Ahead memory n r)) tt

      s : (n : ℕ) → Kept r (sized memory arch cfa frame n (read_signed memory n) m)
      s n =
          if-both P (has_data r n) (read-Kept (read_signed memory n) (read_signed-Ahead memory n r))
            tt

  binary-Kept : (f : ℕ → ℕ → ℕ) (m : Machine) → Kept (m.reader) (binary f m)
  binary-Kept f m =
      on_pop-Kept (m.reader) (λ b. on_pop (λ a m'. push m' (f a b))) m (Ahead-refl (m.reader))
        (λ b m' h.
          on_pop-Kept (m.reader) (λ a m''. push m'' (f a b)) m' h
            (λ a m'' h'. push-Kept (m.reader) m'' (f a b) h'))

  operate-Kept :
      (op : ℕ) (m : Machine)
      → length (m.stack) ≤ expr_stack_max
      → Kept (m.reader) (operate memory arch cfa frame op m)
  unfolding operate
  operate-Kept op m few = if-both P (leb 0x30 op && leb op 0x4F) (push-Kept r m (op - 0x30) same) (
      if-both P (leb 0x08 op && leb op 0x11) (push_constant-Kept op m) (
        if-both P (op == 0x23)
          (on_pop-Kept r (plus_uconst memory arch cfa frame) m same (λ a m' h.
            push-Kept r (record m' { reader = (read_uleb128 memory (m'.reader)).1 })
              (add_words a ((read_uleb128 memory (m'.reader)).0))
              (Ahead-trans r (m'.reader) ((read_uleb128 memory (m'.reader)).1) h
                (read_uleb128-Ahead memory (m'.reader)))))
          (if-both P (op == 0x22) (binary-Kept add_words m) (
            if-both P (op == 0x1C) (binary-Kept subtract_words m) (
              if-both P (op == 0x06)
                (on_pop-Kept r (λ address m'. push_option m' (memory.safe_word address)) m same
                  (λ address m' h. push_option-Kept r m' (memory.safe_word address) h))
                (if-both P (op == 0x9C)
                  (push_option-Kept r m (known_cfa memory arch cfa frame) same)
                  (if-both P (op == 0x91)
                    (push_sum-Kept r m (known_cfa memory arch cfa frame) (read_sleb128 memory r)
                      (read_sleb128-Ahead memory r))
                    (if-both P (op == 0x92) bregx-Kept (
                      if-both P (op == 0x9F) (same, few)
                        (if-both P (leb 0x70 op && leb op 0x8F)
                          (push_sum-Kept r m (get_register_value arch frame (op - 0x70))
                            (read_sleb128 memory r) (read_sleb128-Ahead memory r))
                          tt))))))))))
    where
      r : Reader
      r = m.reader

      P : Option Machine → Type 0
      P = Kept (m.reader)

      same : Ahead r r
      same = Ahead-refl r

      bregx-Kept : Kept r (bregx memory arch cfa frame (read_uleb128 memory r) m)
      bregx-Kept =
          let (reg, r') = read_uleb128 memory r in
          if-both P (ltb 255 ((read_uleb128 memory r).0)) tt (
            push_sum-Kept r m (get_register_value arch frame ((read_uleb128 memory r).0))
              (read_sleb128 memory ((read_uleb128 memory r).1))
              (Ahead-trans r ((read_uleb128 memory r).1)
                ((read_sleb128 memory ((read_uleb128 memory r).1)).1) (read_uleb128-Ahead memory r)
                (read_sleb128-Ahead memory ((read_uleb128 memory r).1))))

  -- A round takes a byte, and leaves no more than 16 values on the stack.
  abbrev Shorter : Reader → Option Machine → Type 0
  Shorter r none = Unit
  Shorter r (some m) =
      (suc (r.position) ≤ m.reader.position)
      × ((m.reader.limit ≡ r.limit) × (length (m.stack) ≤ expr_stack_max))

  step-Shorter :
      (m : Machine)
      → length (m.stack) ≤ expr_stack_max
      → has_data (m.reader) 1 ≡ true
      → Shorter (m.reader) (step memory arch cfa frame m)
  unfolding read_unsigned
  step-Shorter m few data_left =
      if-cases Fine (has_data (m.reader) 1)
        (λ yes. later (operate memory arch cfa frame op m1) (operate-Kept op m1 few))
        (λ no. absurd (ground (arith, no, data_left)))
    where
      Fine : ℕ × Reader → Type 0
      Fine x = Shorter (m.reader) (operate memory arch cfa frame (x.0) (record m { reader = x.1 }))

      op : ℕ
      op = little_endian memory 1 (m.reader.position)

      m1 : Machine
      m1 = record m { reader = record (m.reader) { position = m.reader.position + 1 } }

      later : (o : Option Machine) → Kept (m1.reader) o → Shorter (m.reader) o
      later none h = tt
      later (some m') h = (omega (arith, h.0.0), (h.0.1, h.1))

  outcome-finished :
      (stack : List ℕ) (is_value : Bool) → outcome memory arch cfa frame stack is_value ≢ unfinished
  outcome-finished [] is_value h = cc h
  outcome-finished (value ∷ []) is_value h = cc h
  outcome-finished (value ∷ second ∷ stack) is_value h = cc h

  run-ends :
      (fuel : ℕ) (m : Machine)
      → length (m.stack) ≤ expr_stack_max
      → m.reader.limit - m.reader.position < fuel
      → run memory arch cfa frame fuel m ≢ unfinished
  unfolding run
  run-ends zero m few enough = absurd (omega (arith, enough))
  run-ends (suc fuel) m few enough =
      if-cases (λ e. e ≢ unfinished) (has_data (m.reader) 1)
        (λ more.
          later (λ m' h k. run-ends fuel m' h k) (step memory arch cfa frame m)
            (step-Shorter m few more) (ground (arith, more)))
        (λ at_end. outcome-finished (m.stack) (m.result_is_value))
    where
      later :
          ((m' : Machine)
            → length (m'.stack) ≤ expr_stack_max
            → m'.reader.limit - m'.reader.position < fuel
            → run memory arch cfa frame fuel m' ≢ unfinished)
          → (o : Option Machine) → Shorter (m.reader) o
          → m.reader.position + 1 ≤ m.reader.limit
          → run_on memory arch cfa frame (run memory arch cfa frame fuel) o ≢ unfinished
      later ends none h data_left = λ e. cc e
      later ends (some m') h data_left =
          ends m' (h.1.1) (omega (arith, h.0, h.1.0, enough, data_left))

  -- evaluateDwarfExpression ends for all bytes of the expression: it gives a value or fails
  -- within a round for each byte.
  pub evaluate_dwarf_expression-returns :
      (expr len : ℕ) → evaluate_dwarf_expression memory arch cfa frame expr len ≢ unfinished
  unfolding evaluate_dwarf_expression
  evaluate_dwarf_expression-returns expr len =
      if-cases (λ e. e ≢ unfinished) (expr == 0 || len == 0) (λ nothing h. cc h)
        (λ some_code.
          run-ends (suc len)
            (record { reader = reader_at expr len; stack = []; result_is_value = false })
            (omega arith) (omega arith))
