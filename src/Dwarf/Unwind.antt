-- ===== src/Dwarf/Unwind.antt =====
-- `ksdwarf_buildCFIRow` and `ksdwarf_unwind`.
use kscrash.Prelude.{ℕ, ◌+◌, ◌-◌, Bool, ◌||◌, Option, none, some, ◌==◌, ltb, if◌then◌else◌}
use kscrash.Dwarf.Reader.{wrap, Memory}
use kscrash.Dwarf.Entry.{Cie, Fde, parse_cie, parse_fde}
use kscrash.Dwarf.Search.{Found, Search, found, absent, find_fde, id_size}
use kscrash.Dwarf.Registers.{
  Arch, Frame, get_register_value, get_return_address_register, get_frame_pointer_register,
}
use kscrash.Dwarf.Row.{
  RuleType, undefined, same_value, offset_rule, val_offset, register, expression, val_expression,
  architectural, RegisterRule, Row, zero_row, rule_at,
}
use kscrash.Dwarf.Cfi.{Executed, executed, execute_cfi_instructions}
use kscrash.Dwarf.Expression.{Evaluated, evaluated, failed, evaluate_dwarf_expression}

-- `KSDwarfUnwindResult` of a call that returns true.
pub record UnwindResult : Type 0 where
  pub return_address : ℕ
  pub stack_pointer : ℕ
  pub frame_pointer : ℕ

-- A result, a call that returns false, and a lack of fuel.
pub data Outcome {ℓ} (A : Type ℓ) : Type ℓ where
  done : A → Outcome A
  returned_false : Outcome A
  unfinished : Outcome A

infixl 5 ◌>>=◌
abbrev pub ◌>>=◌ {ℓ κ} : {A : Type ℓ} {B : Type κ} → Outcome A → (A → Outcome B) → Outcome B
done a >>= f = f a
returned_false >>= f = returned_false
unfinished >>= f = unfinished

abbrev pub of_option {ℓ} : {A : Type ℓ} → Option A → Outcome A
of_option none = returned_false
of_option (some a) = done a

abbrev pub of_executed : Executed → Outcome Row
of_executed (executed row) = done row
of_executed Executed.unfinished = unfinished

abbrev pub of_evaluated : Evaluated → Outcome (ℕ × Bool)
of_evaluated (evaluated value is_value) = done (value, is_value)
of_evaluated failed = returned_false
of_evaluated Evaluated.unfinished = unfinished

abbrev pub of_search : Search → Outcome Found
of_search (found f) = done f
of_search absent = returned_false
of_search Search.unfinished = unfinished

-- `result->framePointer`: 0 where its rule gives no value.
abbrev pub value_or_zero : Outcome ℕ → Outcome ℕ
value_or_zero (done value) = done value
value_or_zero returned_false = done 0
value_or_zero unfinished = unfinished

-- `fuel` is for the loops over the instructions.
module _ (memory : Memory) (arch : Arch) (fuel : ℕ) where
  -- The value of a location, or of an expression that gives the value itself.
  abbrev pub fetch : ℕ × Bool → Outcome ℕ
  fetch (value, is_value) = if is_value then done value else of_option (memory.safe_word value)

  abbrev pub apply_rule : RuleType → RegisterRule → ℕ → Frame → Outcome ℕ
  apply_rule undefined rule cfa frame = returned_false
  apply_rule same_value rule cfa frame = returned_false
  apply_rule offset_rule rule cfa frame = of_option (memory.safe_word (wrap (cfa + rule.offset)))
  apply_rule val_offset rule cfa frame = done (wrap (cfa + rule.offset))
  apply_rule register rule cfa frame = of_option (get_register_value arch frame (rule.reg_num))
  apply_rule expression rule cfa frame =
      of_evaluated (evaluate_dwarf_expression memory arch cfa frame (rule.expr) (rule.expr_len))
      >>= fetch
  apply_rule val_expression rule cfa frame = do
    result ←
        of_evaluated (evaluate_dwarf_expression memory arch cfa frame (rule.expr) (rule.expr_len))
    done (result.0)
  apply_rule architectural rule cfa frame = returned_false

  -- `applyRegisterRule`.
  unfoldable pub apply_register_rule : RegisterRule → ℕ → Frame → Outcome ℕ
  apply_register_rule rule cfa frame = apply_rule (rule.rule_type) rule cfa frame

  -- A run of the instructions of an entry, if it has any.
  abbrev pub execute_if_any : Cie → Option Row → ℕ → ℕ → ℕ → ℕ → Row → Outcome Row
  execute_if_any cie initial_state instructions len pc_start target_pc row =
      if instructions == 0 || len == 0
      then done row
      else of_executed (
          execute_cfi_instructions memory cie initial_state fuel instructions len pc_start target_pc
            row)

  unfoldable pub build_from_entries : ℕ → Cie → Fde → Outcome Row
  build_from_entries target_pc cie fde = do
    initial ←
        execute_if_any cie none (cie.initial_instructions) (cie.initial_instructions_len)
          (fde.pc_start) target_pc zero_row
    execute_if_any cie (some initial) (fde.instructions) (fde.instructions_len) (fde.pc_start)
        target_pc initial

  -- `ksdwarf_buildCFIRow`.
  unfoldable pub build_cfi_row : Found → ℕ → Outcome Row
  build_cfi_row f target_pc =
      let size = id_size (f.is_64bit) in
      if ltb (f.cie_size) size || ltb (f.fde_size) size then returned_false else do
        cie ← of_option (parse_cie memory (f.cie + size) (f.cie_size - size))
        build_from_entries target_pc cie
            (parse_fde memory (f.fde + size) (f.fde_size - size) cie (f.fde))

  abbrev pub cfa_by_rule : RuleType → Row → Frame → Outcome ℕ
  cfa_by_rule offset_rule row frame = do
    base ← of_option (get_register_value arch frame (row.cfa_register))
    done (wrap (base + row.cfa_offset))
  cfa_by_rule expression row frame = do
    result ← of_evaluated (
        evaluate_dwarf_expression memory arch 0 frame (row.cfa_expression) (row.cfa_expression_len))
    done (result.0)
  cfa_by_rule undefined row frame = returned_false
  cfa_by_rule same_value row frame = returned_false
  cfa_by_rule val_offset row frame = returned_false
  cfa_by_rule register row frame = returned_false
  cfa_by_rule val_expression row frame = returned_false
  cfa_by_rule architectural row frame = returned_false

  -- What `ksdwarf_unwind` does with the row.
  unfoldable pub unwind_row : Frame → Row → Outcome UnwindResult
  unwind_row frame row = do
    cfa ← cfa_by_rule (row.cfa_rule) row frame
    return_address ← apply_register_rule (rule_at row (get_return_address_register arch)) cfa frame
    frame_pointer ←
        value_or_zero
          (apply_register_rule (rule_at row (get_frame_pointer_register arch)) cfa frame)
    done (record {
      return_address = return_address;
      stack_pointer = cfa;
      frame_pointer = frame_pointer;
    })

  -- `ksdwarf_unwind`.
  unfoldable pub unwind : ℕ → ℕ → ℕ → Frame → Outcome UnwindResult
  unwind eh_frame eh_frame_size pc frame = do
    f ← of_search (find_fde memory eh_frame eh_frame_size pc)
    row ← build_cfi_row f pc
    unwind_row frame row
