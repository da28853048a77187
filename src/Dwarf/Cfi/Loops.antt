-- ===== src/Dwarf/Cfi/Loops.antt =====
-- A run of the instructions that does not come to an end.
use kscrash.Prelude.{
  ℕ, zero, suc, ◌+◌, ◌-◌, ◌≤◌, ◌<◌, ◌≡◌, refl, sym, ap, ◌∙◌, subst, Option, List, [], ◌∷◌, length,
  arith, ltb, if-cases,
}
use kscrash.Dwarf.Reader.{
  word_mod, Memory, Reader, reader_at, has_data, move_on, read_unsigned, read_uleb128,
}
use kscrash.Dwarf.Entry.{Cie}
use kscrash.Dwarf.Row.{Row}
use kscrash.Dwarf.Leb.{Holds, encode_uleb128, read_uleb128-encode, read_byte, skip}
use kscrash.Dwarf.Cfi.{
  State, Executed, unfinished, def_cfa_expression, at_reader, extended_cfa, extended, instruction,
  step, run, execute_cfi_instructions,
}

module _ (memory : Memory) (cie : Cie) (initial_state : Option Row) where
  -- DW_CFA_def_cfa_expression with a length that brings the reader back to the instruction.
  abbrev pub jump_back : List ℕ
  jump_back = 0x0F ∷ encode_uleb128 10 (word_mod - 11)

  jump-len : length (encode_uleb128 10 (word_mod - 11)) ≡ 10
  unfolding encode_uleb128
  jump-len = refl

  -- DW_CFA_def_cfa_expression, behind the read of its length.
  abbrev block : State → ℕ × Reader → State
  block s (len, r) = def_cfa_expression (r.position) len (at_reader (move_on len r) s)

  instruction-block :
      (s : State)
      → instruction memory cie initial_state 0x0F s ≡ block s (read_uleb128 memory (s.reader))
  unfolding instruction extended extended_cfa
  instruction-block s = refl

  -- Such an instruction leaves the reader and the program counter where they were.
  step-jump_back :
      (s : State)
      → Holds memory (s.reader.position) jump_back
      → s.reader.position + 11 ≤ s.reader.limit
      → s.reader.limit < word_mod
      → (step memory cie initial_state s).reader ≡ s.reader
        × ((step memory cie initial_state s).current_pc ≡ s.current_pc)
  step-jump_back s holds fits bound =
      (ap (λ t. t.reader) state ∙ back, ap (λ t. t.current_pc) state)
    where
      r1 : Reader
      r1 = skip 1 (s.reader)

      count : ℕ
      count = length (encode_uleb128 10 (word_mod - 11))

      holds' : Holds memory (r1.position) (encode_uleb128 10 (word_mod - 11))
      holds' =
          subst (λ p. Holds memory p (encode_uleb128 10 (word_mod - 11))) (omega arith) (holds.1)

      opcode : read_unsigned memory 1 (s.reader) ≡ (0x0F, r1)
      opcode = read_byte memory (s.reader) (omega (arith, fits)) ∙ ap (λ b. (b, r1)) (holds.0)

      operand : read_uleb128 memory r1 ≡ (word_mod - 11, skip count r1)
      operand =
          read_uleb128-encode memory (word_mod - 11) r1 (omega arith) holds'
            (omega (arith, fits, jump-len))

      state :
          step memory cie initial_state s ≡ block (at_reader r1 s) (word_mod - 11, skip count r1)
      state =
          ap (λ (x : ℕ × Reader). instruction memory cie initial_state (x.0) (at_reader (x.1) s))
            opcode
          ∙ instruction-block (at_reader r1 s)
          ∙ ap (block (at_reader r1 s)) operand

      back : move_on (word_mod - 11) (skip count r1) ≡ s.reader
      back = ap (λ p. record (s.reader) { position = p }) (omega (arith, jump-len, fits, bound))

  run-jump_back :
      (fuel target_pc : ℕ) (s : State)
      → Holds memory (s.reader.position) jump_back
      → s.reader.position + 11 ≤ s.reader.limit
      → s.reader.limit < word_mod
      → s.current_pc ≤ target_pc
      → run memory cie initial_state fuel target_pc s ≡ unfinished
  unfolding run
  run-jump_back zero target_pc s holds fits bound before = refl
  run-jump_back (suc fuel) target_pc s holds fits bound before =
      let (same, pc) = step-jump_back s holds fits bound in
      let s' = step memory cie initial_state s in
      if-cases Loops (has_data (s.reader) 1)
        (λ more.
          if-cases Loops (ltb target_pc (s.current_pc))
            (λ passed. absurd (ground (arith, passed, before)))
            (λ on.
              run-jump_back fuel target_pc s'
                (subst (λ r. Holds memory (r.position) jump_back) (sym same) holds)
                (subst (λ r. r.position + 11 ≤ r.limit) (sym same) fits)
                (subst (λ r. r.limit < word_mod) (sym same) bound) (omega (arith, pc, before))))
        (λ at_end. absurd (ground (arith, at_end, fits)))
    where
      Loops : Executed → Type 0
      Loops e = e ≡ unfinished

  -- The length of an expression is added to the reader with no test, so that it wraps:
  -- executeCFIInstructions of instructions that begin with an expression of 2^64 - 11 bytes reads
  -- the same instruction for ever, and no number of rounds is enough. The program counter that is
  -- looked for is not in front of the entry's first.
  pub execute_cfi_instructions-jump_back :
      (fuel instructions len pc_start target_pc : ℕ) (row : Row)
      → Holds memory instructions jump_back
      → 11 ≤ len
      → instructions + len < word_mod
      → pc_start ≤ target_pc
      → execute_cfi_instructions memory cie initial_state fuel instructions len pc_start target_pc
          row
        ≡ unfinished
  unfolding execute_cfi_instructions
  execute_cfi_instructions-jump_back fuel instructions len pc_start target_pc row holds long bound
        before =
      run-jump_back fuel target_pc
        (record {
          reader = reader_at instructions len;
          current_pc = pc_start;
          row = row;
          state_stack = [];
        })
        holds (omega (arith, long, bound)) (omega (arith, bound)) before
