-- ===== src/Dwarf/Cfi.antt =====
-- `executeCFIInstructions`.
pub mod Valid
pub mod Ends
pub mod Loops
use kscrash.Prelude.{
  ℕ, zero, suc, ◌+◌, ◌*◌, ◌-◌, ◌/◌, ◌%◌, Bool, true, false, ◌&&◌, Option, none, some, List, [], ◌∷◌,
  length, ◌==◌, ltb, leb, if◌then◌else◌,
}
use kscrash.Dwarf.Reader.{
  wrap, Memory, Reader, reader_at, has_data, move_on, read_unsigned, read_uleb128, read_sleb128,
  read_encoded_pointer,
}
use kscrash.Dwarf.Entry.{Cie}
use kscrash.Dwarf.Row.{
  RuleType, undefined, same_value, offset_rule, val_offset, register, expression, val_expression,
  RegisterRule, Row, rule_at, set_rule,
}

abbrev pub max_state_stack_depth : ℕ
max_state_stack_depth = 8

-- The locals of the loop, and the row; `state_stack` from the top on.
pub record State : Type 0 where
  pub reader : Reader
  pub current_pc : ℕ
  pub row : Row
  pub state_stack : List Row

-- The row at the end of the loop, or a lack of fuel.
pub data Executed : Type 0 where
  executed : Row → Executed
  unfinished : Executed

-- `currentPC += delta * cie->codeAlignmentFactor;`
abbrev pub advance : Cie → State → ℕ × Reader → State
advance cie s (delta, r) = record s {
  reader = r;
  current_pc = wrap (s.current_pc + delta * cie.code_alignment_factor);
}

-- `offset * cie->dataAlignmentFactor`, on bit patterns.
abbrev pub scaled : Cie → ℕ → ℕ
scaled cie offset = wrap (offset * cie.data_alignment_factor)

abbrev pub change_rule : ℕ → (RegisterRule → RegisterRule) → State → State
change_rule reg change s = record s { row = set_rule reg change (s.row) }

-- The changes of a rule.
abbrev pub with_type : RuleType → RegisterRule → RegisterRule
with_type t rule = record rule { rule_type = t }

abbrev pub with_offset : RuleType → ℕ → RegisterRule → RegisterRule
with_offset t offset rule = record rule { rule_type = t; offset = offset }

abbrev pub with_register : ℕ → RegisterRule → RegisterRule
with_register reg rule = record rule { rule_type = register; reg_num = reg }

abbrev pub with_expression : RuleType → ℕ → ℕ → RegisterRule → RegisterRule
with_expression t expr len rule = record rule { rule_type = t; expr = expr; expr_len = len }

-- The rule of the initial state, or an undefined one.
abbrev pub initial_rule : Option Row → ℕ → RegisterRule → RegisterRule
initial_rule none reg rule = with_type undefined rule
initial_rule (some initial) reg rule = rule_at initial reg

-- `DW_CFA_remember_state` and `DW_CFA_restore_state`.
abbrev pub remember_state : State → State
remember_state s =
    if ltb (length (s.state_stack)) max_state_stack_depth
    then record s { state_stack = s.row ∷ s.state_stack }
    else s

abbrev pub restored : State → List Row → State
restored s [] = s
restored s (row ∷ rows) = record s { row = row; state_stack = rows }

abbrev pub restore_state : State → State
restore_state s = restored s (s.state_stack)

-- `row->cfaRegister`, `row->cfaOffset` and `row->cfaExpression` with the rule that goes with them.
abbrev pub def_cfa : ℕ → ℕ → State → State
def_cfa reg offset s = record s {
  row = record (s.row) { cfa_rule = offset_rule; cfa_register = reg % 256; cfa_offset = offset };
}

abbrev pub def_cfa_register : ℕ → State → State
def_cfa_register reg s = record s { row = record (s.row) { cfa_register = reg % 256 } }

abbrev pub def_cfa_offset : ℕ → State → State
def_cfa_offset offset s = record s { row = record (s.row) { cfa_offset = offset } }

abbrev pub def_cfa_expression : ℕ → ℕ → State → State
def_cfa_expression expr len s = record s {
  row = record (s.row) { cfa_rule = expression; cfa_expression = expr; cfa_expression_len = len };
}

-- A step that goes on at `r`.
abbrev pub at_reader : Reader → State → State
at_reader r s = record s { reader = r }

module _ (memory : Memory) (cie : Cie) (initial_state : Option Row) where
  -- An operand, and what the instruction does with it.
  abbrev with_uleb : Reader → (ℕ → Reader → State) → State
  with_uleb r next = let (value, r') = read_uleb128 memory r in next value r'

  abbrev with_sleb : Reader → (ℕ → Reader → State) → State
  with_sleb r next = let (value, r') = read_sleb128 memory r in next value r'

  -- An instruction on the rule of a register.
  abbrev on_rule : (ℕ → RegisterRule → RegisterRule) → State → State
  on_rule change s = with_uleb (s.reader) (λ reg r. change_rule reg (change reg) (at_reader r s))

  -- The same with an unsigned operand, a signed one, and an expression that is skipped.
  abbrev on_rule_uleb : (ℕ → RegisterRule → RegisterRule) → State → State
  on_rule_uleb change s =
      with_uleb (s.reader)
        (λ reg r. with_uleb r (λ n r'. change_rule reg (change n) (at_reader r' s)))

  abbrev on_rule_sleb : (ℕ → RegisterRule → RegisterRule) → State → State
  on_rule_sleb change s =
      with_uleb (s.reader)
        (λ reg r. with_sleb r (λ n r'. change_rule reg (change n) (at_reader r' s)))

  abbrev on_rule_expression : RuleType → State → State
  on_rule_expression t s = with_uleb (s.reader) (λ reg r. with_uleb r (λ len r'.
      change_rule reg (with_expression t (r'.position) len) (at_reader (move_on len r') s)))

  -- The extended opcodes on the rule of a register.
  unfoldable pub extended_rule : ℕ → State → State
  extended_rule opcode s =
      if opcode == 0x05
      then on_rule_uleb (λ n. with_offset offset_rule (scaled cie n)) s
      else if opcode == 0x06
      then on_rule (initial_rule initial_state) s
      else if opcode == 0x07
      then on_rule (λ reg. with_type undefined) s
      else if opcode == 0x08
      then on_rule (λ reg. with_type same_value) s
      else if opcode == 0x09
      then on_rule_uleb (λ n. with_register (n % 256)) s
      else if opcode == 0x10
      then on_rule_expression expression s
      else if opcode == 0x11
      then on_rule_sleb (λ n. with_offset offset_rule (scaled cie n)) s
      else if opcode == 0x14
      then on_rule_uleb (λ n. with_offset val_offset (scaled cie n)) s
      else if opcode == 0x15
      then on_rule_sleb (λ n. with_offset val_offset (scaled cie n)) s
      else if opcode == 0x16
      then on_rule_expression val_expression s
      else s

  -- Those on the CFA, and DW_CFA_GNU_args_size.
  unfoldable pub extended_cfa : ℕ → State → State
  extended_cfa opcode s =
      if opcode == 0x0C
      then with_uleb (s.reader) (λ reg r. with_uleb r (λ n r'. def_cfa reg n (at_reader r' s)))
      else if opcode == 0x0D
      then with_uleb (s.reader) (λ reg r. def_cfa_register reg (at_reader r s))
      else if opcode == 0x0E
      then with_uleb (s.reader) (λ n r. def_cfa_offset n (at_reader r s))
      else if opcode == 0x0F
      then with_uleb (s.reader)
          (λ len r. def_cfa_expression (r.position) len (at_reader (move_on len r) s))
      else if opcode == 0x12
      then with_uleb (s.reader)
          (λ reg r. with_sleb r (λ n r'. def_cfa reg (scaled cie n) (at_reader r' s)))
      else if opcode == 0x13
      then with_sleb (s.reader) (λ n r. def_cfa_offset (scaled cie n) (at_reader r s))
      else if opcode == 0x2E
      then with_uleb (s.reader) (λ n r. at_reader r s)
      else extended_rule opcode s

  abbrev set_loc : State → ℕ × Reader → State
  set_loc s (pc, r) = record s { reader = r; current_pc = pc }

  -- The `switch` over the extended opcodes. One that is not known does nothing, and so does
  -- DW_CFA_nop.
  unfoldable pub extended : ℕ → State → State
  extended opcode s =
      if opcode == 0x01
      then set_loc s (read_encoded_pointer memory (cie.fde_pointer_encoding) 0 (s.reader))
      else if opcode == 0x02
      then advance cie s (read_unsigned memory 1 (s.reader))
      else if opcode == 0x03
      then advance cie s (read_unsigned memory 2 (s.reader))
      else if opcode == 0x04
      then advance cie s (read_unsigned memory 4 (s.reader))
      else if opcode == 0x0A
      then remember_state s
      else if opcode == 0x0B
      then restore_state s
      else extended_cfa opcode s

  -- One round of the loop, behind the read of `opcode`. The low bits are a register or a delta.
  unfoldable pub instruction : ℕ → State → State
  instruction opcode s =
      let low_bits = opcode % 64 in
      if opcode / 64 == 1
      then advance cie s (low_bits, s.reader)
      else if opcode / 64 == 2
      then with_uleb (s.reader)
          (λ n r. change_rule low_bits (with_offset offset_rule (scaled cie n)) (at_reader r s))
      else if opcode / 64 == 3
      then change_rule low_bits (initial_rule initial_state low_bits) s
      else extended opcode s

  abbrev step : State → State
  step s = let (opcode, r) = read_unsigned memory 1 (s.reader) in instruction opcode (at_reader r s)

  -- The loop, and `row->location = currentPC;`.
  unfoldable pub run : ℕ → ℕ → State → Executed
  run zero target_pc s = unfinished
  run (suc fuel) target_pc s =
      let rest = run fuel target_pc (step s) in
      let stop = executed (record (s.row) { location = s.current_pc }) in
      if has_data (s.reader) 1 then (if ltb target_pc (s.current_pc) then stop else rest) else stop

  -- `executeCFIInstructions`, which never fails.
  unfoldable pub execute_cfi_instructions : ℕ → ℕ → ℕ → ℕ → ℕ → Row → Executed
  execute_cfi_instructions fuel instructions len pc_start target_pc row =
      run fuel target_pc (record {
        reader = reader_at instructions len;
        current_pc = pc_start;
        row = row;
        state_stack = [];
      })
