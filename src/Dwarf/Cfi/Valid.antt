-- ===== src/Dwarf/Cfi/Valid.antt =====
-- The instructions keep a row of 64 rules, and the stack of states within its bounds.
use kscrash.Prelude.{
  ℕ, ◌/◌, ◌≤◌, ◌≡◌, refl, ◌∙◌, Option, List, [], ◌∷◌, length, zero, suc, ◌<◌, ap, All, arith, ◌==◌,
  ltb, if-cases, if-both,
}
use kscrash.Dwarf.Reader.{Memory}
use kscrash.Dwarf.Entry.{Cie}
use kscrash.Dwarf.Row.{RegisterRule, Row, rule_at, set_rule, write_at, max_registers}
use kscrash.Dwarf.Cfi.{
  State, max_state_stack_depth, change_rule, remember_state, restored, restore_state, extended_rule,
  extended_cfa, extended, instruction,
}

-- A row of 64 rules.
abbrev pub IsRow : Row → Type 0
IsRow row = length (row.registers) ≡ max_registers

abbrev pub IsState : State → Type 0
IsState s =
    IsRow (s.row) × (All IsRow (s.state_stack) × (length (s.state_stack) ≤ max_state_stack_depth))

length-write_at :
    (rules : List RegisterRule) (i : ℕ) (rule : RegisterRule)
    → i < length rules
    → length (write_at rules i rule) ≡ length rules
length-write_at [] i rule h = absurd (omega (arith, h))
length-write_at (r ∷ rules) zero rule h = refl
length-write_at (r ∷ rules) (suc i) rule h =
    ap suc (length-write_at rules i rule (omega (arith, h)))

set_rule-IsRow :
    (reg : ℕ) (change : RegisterRule → RegisterRule) (row : Row)
    → IsRow row
    → IsRow (set_rule reg change row)
unfolding set_rule
set_rule-IsRow reg change row h =
    if-cases IsRow (ltb reg max_registers)
      (λ inside.
        length-write_at (row.registers) reg (change (rule_at row reg)) (ground (arith, inside, h))
        ∙ h)
      (λ outside. h)

change_rule-IsState :
    (reg : ℕ) (change : RegisterRule → RegisterRule) (s : State)
    → IsState s
    → IsState (change_rule reg change s)
change_rule-IsState reg change s h = (set_rule-IsRow reg change (s.row) (h.0), h.1)

remember_state-IsState : (s : State) → IsState s → IsState (remember_state s)
remember_state-IsState s h =
    if-cases IsState (ltb (length (s.state_stack)) max_state_stack_depth)
      (λ room. (h.0, ((h.0, h.1.0), ground (arith, room)))) (λ full. h)

restored-IsState :
    (s : State) (rows : List Row)
    → IsRow (s.row)
    → s.state_stack ≡ rows
    → All IsRow rows
    → length rows ≤ max_state_stack_depth
    → IsState s
    → IsState (restored s rows)
restored-IsState s [] row e saved depth h = h
restored-IsState s (top ∷ rows) row e saved depth h = (saved.0, (saved.1, omega (arith, depth)))

restore_state-IsState : (s : State) → IsState s → IsState (restore_state s)
restore_state-IsState s h = restored-IsState s (s.state_stack) (h.0) refl (h.1.0) (h.1.1) h

module _ (memory : Memory) (cie : Cie) (initial_state : Option Row) where
  extended_rule-IsState :
      (opcode : ℕ) (s : State)
      → IsState s
      → IsState (extended_rule memory cie initial_state opcode s)
  unfolding extended_rule
  extended_rule-IsState opcode s h =
      if-both IsState (opcode == 0x05) (set_rule-IsRow _ _ (s.row) (h.0), h.1)
        (if-both IsState (opcode == 0x06) (set_rule-IsRow _ _ (s.row) (h.0), h.1)
          (if-both IsState (opcode == 0x07) (set_rule-IsRow _ _ (s.row) (h.0), h.1)
            (if-both IsState (opcode == 0x08) (set_rule-IsRow _ _ (s.row) (h.0), h.1)
              (if-both IsState (opcode == 0x09) (set_rule-IsRow _ _ (s.row) (h.0), h.1)
                (if-both IsState (opcode == 0x10) (set_rule-IsRow _ _ (s.row) (h.0), h.1)
                  (if-both IsState (opcode == 0x11) (set_rule-IsRow _ _ (s.row) (h.0), h.1)
                    (if-both IsState (opcode == 0x14) (set_rule-IsRow _ _ (s.row) (h.0), h.1)
                      (if-both IsState (opcode == 0x15) (set_rule-IsRow _ _ (s.row) (h.0), h.1)
                        (if-both IsState (opcode == 0x16) (set_rule-IsRow _ _ (s.row) (h.0), h.1)
                          h)))))))))

  extended_cfa-IsState :
      (opcode : ℕ) (s : State)
      → IsState s
      → IsState (extended_cfa memory cie initial_state opcode s)
  unfolding extended_cfa
  extended_cfa-IsState opcode s h = if-both IsState (opcode == 0x0C) h (
      if-both IsState (opcode == 0x0D) h (
        if-both IsState (opcode == 0x0E) h (
          if-both IsState (opcode == 0x0F) h (
            if-both IsState (opcode == 0x12) h (
              if-both IsState (opcode == 0x13) h
                (if-both IsState (opcode == 0x2E) h (extended_rule-IsState opcode s h)))))))

  extended-IsState :
      (opcode : ℕ) (s : State) → IsState s → IsState (extended memory cie initial_state opcode s)
  unfolding extended
  extended-IsState opcode s h = if-both IsState (opcode == 0x01) h (
      if-both IsState (opcode == 0x02) h (
        if-both IsState (opcode == 0x03) h (
          if-both IsState (opcode == 0x04) h (
            if-both IsState (opcode == 0x0A) (remember_state-IsState s h) (
              if-both IsState (opcode == 0x0B) (restore_state-IsState s h)
                (extended_cfa-IsState opcode s h))))))

  -- Each instruction, whatever its bytes and the register that it names, writes within the 64
  -- rules of the row: a write past them would leave no array of 64 rules, and the row and every
  -- remembered row keeps one. It remembers at most eight rows.
  pub instruction-IsState :
      (opcode : ℕ) (s : State) → IsState s → IsState (instruction memory cie initial_state opcode s)
  unfolding instruction
  instruction-IsState opcode s h = if-both IsState (opcode / 64 == 1) h (
      if-both IsState (opcode / 64 == 2) (set_rule-IsRow _ _ (s.row) (h.0), h.1)
        (if-both IsState (opcode / 64 == 3) (set_rule-IsRow _ _ (s.row) (h.0), h.1)
          (extended-IsState opcode s h)))
