-- ===== src/Dwarf/Expression.antt =====
-- `evaluateDwarfExpression`.
pub mod Ends
use kscrash.Prelude.{
  ℕ, zero, suc, ◌+◌, ◌-◌, Bool, true, false, ◌&&◌, ◌||◌, not, Option, none, some, List, [], ◌∷◌,
  length, ◌==◌, ltb, leb, if◌then◌else◌,
}
use kscrash.Dwarf.Reader.{
  word_mod, wrap, Memory, Reader, reader_at, has_data, sign_extend, read_unsigned, read_signed,
  read_uleb128, read_sleb128,
}
use kscrash.Dwarf.Registers.{Arch, Frame, get_register_value}

abbrev pub expr_stack_max : ℕ
expr_stack_max = 16

-- The locals of the loop: `reader`, `stack` from the top on, and `resultIsValue`.
pub record Machine : Type 0 where
  pub reader : Reader
  pub stack : List ℕ
  pub result_is_value : Bool

-- What `outValue` and `outIsValue` give back, a failure, and a lack of fuel.
pub data Evaluated : Type 0 where
  evaluated : ℕ → Bool → Evaluated
  failed : Evaluated
  unfinished : Evaluated

-- `exprPush`.
unfoldable pub expr_push : List ℕ → ℕ → Option (List ℕ)
expr_push stack value = if leb expr_stack_max (length stack) then none else some (value ∷ stack)

-- `exprPop`.
abbrev pub expr_pop : List ℕ → Option (ℕ × List ℕ)
expr_pop [] = none
expr_pop (value ∷ stack) = some (value, stack)

abbrev pub with_stack : Machine → Option (List ℕ) → Option Machine
with_stack m none = none
with_stack m (some stack) = some (record m { stack = stack })

abbrev pub push : Machine → ℕ → Option Machine
push m value = with_stack m (expr_push (m.stack) value)

abbrev pub push_read : Machine → ℕ × Reader → Option Machine
push_read m (value, r) = push (record m { reader = r }) value

abbrev pub push_option : Machine → Option ℕ → Option Machine
push_option m none = none
push_option m (some value) = push m value

-- What follows `if (!exprPop(...)) return false;`
abbrev pub popped : Machine → Option (ℕ × List ℕ) → (ℕ → Machine → Option Machine) → Option Machine
popped m none next = none
popped m (some (value, stack)) next = next value (record m { stack = stack })

abbrev pub on_pop : (ℕ → Machine → Option Machine) → Machine → Option Machine
on_pop next m = popped m (expr_pop (m.stack)) next

-- `DW_OP_plus` and `DW_OP_minus`: the top is the second operand.
abbrev pub binary : (ℕ → ℕ → ℕ) → Machine → Option Machine
binary op m = on_pop (λ b. on_pop (λ a m'. push m' (op a b))) m

abbrev pub add_words : ℕ → ℕ → ℕ
add_words a b = wrap (a + b)

abbrev pub subtract_words : ℕ → ℕ → ℕ
subtract_words a b = wrap (a + (word_mod - b))

-- A value and the offset that follows it.
abbrev pub push_sum : Machine → Option ℕ → ℕ × Reader → Option Machine
push_sum m none (offset, r) = none
push_sum m (some value) (offset, r) = push (record m { reader = r }) (add_words value offset)

module _ (memory : Memory) (arch : Arch) (cfa : ℕ) (frame : Frame) where
  -- `cfa`, where it is known.
  abbrev known_cfa : Option ℕ
  known_cfa = if cfa == 0 then none else some cfa

  abbrev sized : ℕ → (Reader → ℕ × Reader) → Machine → Option Machine
  sized size read m = if has_data (m.reader) size then push_read m (read (m.reader)) else none

  abbrev plus_uconst : ℕ → Machine → Option Machine
  plus_uconst a m =
      let (imm, r) = read_uleb128 memory (m.reader) in
      push (record m { reader = r }) (add_words a imm)

  abbrev bregx : ℕ × Reader → Machine → Option Machine
  bregx (reg, r) m =
      if ltb 255 reg
      then none
      else push_sum m (get_register_value arch frame reg) (read_sleb128 memory r)

  -- The operations that push a constant, at DW_OP_const1u to DW_OP_consts.
  unfoldable pub push_constant : ℕ → Machine → Option Machine
  push_constant op m =
      if op == 0x08
      then sized 1 (read_unsigned memory 1) m
      else if op == 0x09
      then sized 1 (read_signed memory 1) m
      else if op == 0x0A
      then sized 2 (read_unsigned memory 2) m
      else if op == 0x0B
      then sized 2 (read_signed memory 2) m
      else if op == 0x0C
      then sized 4 (read_unsigned memory 4) m
      else if op == 0x0D
      then sized 4 (read_signed memory 4) m
      else if op == 0x0E
      then sized 8 (read_unsigned memory 8) m
      else if op == 0x0F
      then sized 8 (read_signed memory 8) m
      else if op == 0x10
      then push_read m (read_uleb128 memory (m.reader))
      else push_read m (read_sleb128 memory (m.reader))

  -- One round of the loop, behind the read of `op`.
  unfoldable pub operate : ℕ → Machine → Option Machine
  operate op m =
      if leb 0x30 op && leb op 0x4F
      then push m (op - 0x30)
      else if leb 0x08 op && leb op 0x11
      then push_constant op m
      else if op == 0x23
      then on_pop plus_uconst m
      else if op == 0x22
      then binary add_words m
      else if op == 0x1C
      then binary subtract_words m
      else if op == 0x06
      then on_pop (λ address m'. push_option m' (memory.safe_word address)) m
      else if op == 0x9C
      then push_option m known_cfa
      else if op == 0x91
      then push_sum m known_cfa (read_sleb128 memory (m.reader))
      else if op == 0x92
      then bregx (read_uleb128 memory (m.reader)) m
      else if op == 0x9F
      then some (record m { result_is_value = true })
      else if leb 0x70 op && leb op 0x8F
      then push_sum m (get_register_value arch frame (op - 0x70)) (read_sleb128 memory (m.reader))
      else none

  abbrev step : Machine → Option Machine
  step m = let (op, r) = read_unsigned memory 1 (m.reader) in operate op (record m { reader = r })

  -- What follows the loop.
  abbrev pub outcome : List ℕ → Bool → Evaluated
  outcome [] is_value = failed
  outcome (value ∷ []) is_value = evaluated value is_value
  outcome (value ∷ second ∷ stack) is_value = failed

  abbrev pub run_on : (Machine → Evaluated) → Option Machine → Evaluated
  run_on next none = failed
  run_on next (some m) = next m

  -- The loop.
  unfoldable pub run : ℕ → Machine → Evaluated
  run zero m = unfinished
  run (suc fuel) m =
      let round = run_on (run fuel) in
      if has_data (m.reader) 1 then round (step m) else outcome (m.stack) (m.result_is_value)

  -- `evaluateDwarfExpression`. Each operation takes a byte at least.
  unfoldable pub evaluate_dwarf_expression : ℕ → ℕ → Evaluated
  evaluate_dwarf_expression expr len =
      if expr == 0 || len == 0
      then failed
      else run (suc len)
          (record { reader = reader_at expr len; stack = []; result_is_value = false })
