-- ===== src/Dwarf/Row.antt =====
-- The types of include/Unwind/KSDwarfUnwind.h.
use kscrash.Prelude.{zero, suc, [], ◌∷◌, ℕ, List, replicate, get_or, ltb, if◌then◌else◌}

pub data RuleType : Type 0 where
  undefined : RuleType
  same_value : RuleType
  offset_rule : RuleType
  val_offset : RuleType
  register : RuleType
  expression : RuleType
  val_expression : RuleType
  architectural : RuleType

pub record RegisterRule : Type 0 where
  pub rule_type : RuleType
  pub offset : ℕ
  pub reg_num : ℕ
  pub expr : ℕ
  pub expr_len : ℕ

pub record Row : Type 0 where
  pub location : ℕ
  pub cfa_rule : RuleType
  pub cfa_register : ℕ
  pub cfa_offset : ℕ
  pub cfa_expression : ℕ
  pub cfa_expression_len : ℕ
  pub registers : List RegisterRule

abbrev pub max_registers : ℕ
max_registers = 64

-- A rule, and a row, of which each byte is 0.
abbrev pub zero_rule : RegisterRule
zero_rule = record { rule_type = undefined; offset = 0; reg_num = 0; expr = 0; expr_len = 0 }

abbrev pub zero_row : Row
zero_row = record {
  location = 0;
  cfa_rule = undefined;
  cfa_register = 0;
  cfa_offset = 0;
  cfa_expression = 0;
  cfa_expression_len = 0;
  registers = replicate max_registers zero_rule;
}

-- `row->registers[reg]`.
abbrev pub rule_at : Row → ℕ → RegisterRule
rule_at row reg = get_or (row.registers) reg zero_rule

-- A write to the array. Past its end the C is undefined; here what is left is no array of 64 rules.
abbrev pub write_at : List RegisterRule → ℕ → RegisterRule → List RegisterRule
write_at [] i rule = rule ∷ []
write_at (r ∷ rules) zero rule = rule ∷ rules
write_at (r ∷ rules) (suc i) rule = r ∷ write_at rules i rule

-- The changes of `row->registers[reg]` under `if (reg < KSDWARF_MAX_REGISTERS)`.
unfoldable pub set_rule : ℕ → (RegisterRule → RegisterRule) → Row → Row
set_rule reg change row =
    if ltb reg max_registers
    then record row { registers = write_at (row.registers) reg (change (rule_at row reg)) }
    else row
