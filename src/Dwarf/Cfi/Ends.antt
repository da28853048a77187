-- ===== src/Dwarf/Cfi/Ends.antt =====
-- Where no length in the instructions is too large, their run comes to an end.
use kscrash.Prelude.{
  ℕ, zero, suc, ◌+◌, ◌-◌, ◌/◌, ◌≤◌, ◌<◌, ◌≡◌, ◌≢◌, refl, ◌∙◌, true, Option, List, [], ◌∷◌, length,
  arith, ◌==◌, ltb, if-cases, if-both,
}
use kscrash.Dwarf.Reader.{
  word_mod, wrap, Memory, Reader, reader_at, has_data, move_on, little_endian, read_unsigned,
  read_uleb128, read_sleb128,
}
use kscrash.Dwarf.Entry.{Cie}
use kscrash.Dwarf.Row.{Row}
use kscrash.Dwarf.Forward.{
  Ahead, Ahead-refl, Ahead-trans, read_unsigned-Ahead, read_uleb128-Ahead, read_sleb128-Ahead,
  read_uleb128-le, read_encoded_pointer-Ahead,
}
use kscrash.Dwarf.Cfi.{
  State, Executed, unfinished, restored, at_reader, extended_rule, extended_cfa, extended,
  instruction, step, run, execute_cfi_instructions,
}

-- No number that can be read at a place in the data, from `start` to `end_`, takes the reader past
-- the end of the memory.
abbrev pub SmallLengths : Memory → ℕ → ℕ → Type 0
SmallLengths memory start end_ =
    (r : Reader)
    → r.limit ≡ end_
    → start ≤ r.position
    → r.position ≤ end_
    → ((read_uleb128 memory r).1).position + (read_uleb128 memory r).0 < word_mod

module _ (memory : Memory) (cie : Cie) (initial_state : Option Row) where
  -- The reader behind one unsigned operand, behind two, and behind an unsigned and a signed one.
  one-Ahead : (r : Reader) → Ahead r ((read_uleb128 memory r).1)
  one-Ahead r = read_uleb128-Ahead memory r

  two-Ahead : (r : Reader) → Ahead r ((read_uleb128 memory ((read_uleb128 memory r).1)).1)
  two-Ahead r =
      let r' = (read_uleb128 memory r).1 in
      Ahead-trans r r' ((read_uleb128 memory r').1) (one-Ahead r) (one-Ahead r')

  signed-Ahead : (r : Reader) → Ahead r ((read_sleb128 memory ((read_uleb128 memory r).1)).1)
  signed-Ahead r =
      let r' = (read_uleb128 memory r).1 in
      Ahead-trans r r' ((read_sleb128 memory r').1) (one-Ahead r) (read_sleb128-Ahead memory r')

  -- An expression that is skipped.
  skipped-Ahead :
      (start end_ : ℕ) (small : SmallLengths memory start end_) (r : Reader)
      → r.limit ≡ end_
      → start ≤ r.position
      → r.position ≤ end_
      → Ahead r (move_on ((read_uleb128 memory r).0) ((read_uleb128 memory r).1))
  skipped-Ahead start end_ small r same above within =
      (omega (arith, small r same above within, (one-Ahead r).0), (one-Ahead r).1)

  skipped_second-Ahead :
      (start end_ : ℕ) (small : SmallLengths memory start end_) (r : Reader)
      → r.limit ≡ end_
      → start ≤ r.position
      → r.position ≤ end_
      → Ahead r (
          move_on
            ((read_uleb128 memory ((read_uleb128 memory r).1)).0)
            ((read_uleb128 memory ((read_uleb128 memory r).1)).1))
  skipped_second-Ahead start end_ small r same above within =
      let r' = (read_uleb128 memory r).1 in
      Ahead-trans r r' (move_on ((read_uleb128 memory r').0) ((read_uleb128 memory r').1))
        (one-Ahead r)
        (skipped-Ahead start end_ small r' ((one-Ahead r).1 ∙ same)
          (omega (arith, above, (one-Ahead r).0))
          (omega (arith, read_uleb128-le memory r (omega (arith, same, within)), same)))

  module _ (start end_ : ℕ) (small : SmallLengths memory start end_) (opcode : ℕ) (s : State)
      (same : s.reader.limit ≡ end_) (above : start ≤ s.reader.position)
      (within : s.reader.position ≤ end_) where
    abbrev On : State → Type 0
    On t = Ahead (s.reader) (t.reader)

    extended_rule-Ahead : On (extended_rule memory cie initial_state opcode s)
    unfolding extended_rule
    extended_rule-Ahead =
        let r = s.reader in
        if-both On (opcode == 0x05) (two-Ahead r) (
          if-both On (opcode == 0x06) (one-Ahead r) (
            if-both On (opcode == 0x07) (one-Ahead r) (
              if-both On (opcode == 0x08) (one-Ahead r) (
                if-both On (opcode == 0x09) (two-Ahead r) (
                  if-both On (opcode == 0x10)
                    (skipped_second-Ahead start end_ small r same above within)
                    (if-both On (opcode == 0x11) (signed-Ahead r) (
                      if-both On (opcode == 0x14) (two-Ahead r) (
                        if-both On (opcode == 0x15) (signed-Ahead r) (
                          if-both On (opcode == 0x16)
                            (skipped_second-Ahead start end_ small r same above within)
                            (Ahead-refl r))))))))))

    extended_cfa-Ahead : On (extended_cfa memory cie initial_state opcode s)
    unfolding extended_cfa
    extended_cfa-Ahead =
        let r = s.reader in
        if-both On (opcode == 0x0C) (two-Ahead r) (
          if-both On (opcode == 0x0D) (one-Ahead r) (
            if-both On (opcode == 0x0E) (one-Ahead r) (
              if-both On (opcode == 0x0F) (skipped-Ahead start end_ small r same above within) (
                if-both On (opcode == 0x12) (signed-Ahead r) (
                  if-both On (opcode == 0x13) (read_sleb128-Ahead memory r)
                    (if-both On (opcode == 0x2E) (one-Ahead r) extended_rule-Ahead))))))

    restored-Ahead : (rows : List Row) → On (restored s rows)
    restored-Ahead [] = Ahead-refl (s.reader)
    restored-Ahead (row ∷ rows) = Ahead-refl (s.reader)

    extended-Ahead : On (extended memory cie initial_state opcode s)
    unfolding extended
    extended-Ahead =
        let r = s.reader in
        if-both On (opcode == 0x01)
          (read_encoded_pointer-Ahead memory (cie.fde_pointer_encoding) 0 r)
          (if-both On (opcode == 0x02) (read_unsigned-Ahead memory 1 r) (
            if-both On (opcode == 0x03) (read_unsigned-Ahead memory 2 r) (
              if-both On (opcode == 0x04) (read_unsigned-Ahead memory 4 r) (
                if-both On (opcode == 0x0A)
                  (if-both On (ltb (length (s.state_stack)) 8) (Ahead-refl r) (Ahead-refl r))
                  (if-both On (opcode == 0x0B) (restored-Ahead (s.state_stack))
                    extended_cfa-Ahead)))))

    instruction-Ahead : On (instruction memory cie initial_state opcode s)
    unfolding instruction
    instruction-Ahead =
        let r = s.reader in
        if-both On (opcode / 64 == 1) (Ahead-refl r) (
          if-both On (opcode / 64 == 2) (one-Ahead r)
            (if-both On (opcode / 64 == 3) (Ahead-refl r) extended-Ahead))

  -- A round takes a byte.
  step-Ahead :
      (start end_ : ℕ) (small : SmallLengths memory start end_) (s : State)
      → s.reader.limit ≡ end_
      → start ≤ s.reader.position
      → has_data (s.reader) 1 ≡ true
      → suc (s.reader.position) ≤ (step memory cie initial_state s).reader.position
        × ((step memory cie initial_state s).reader.limit ≡ end_)
  unfolding read_unsigned
  step-Ahead start end_ small s same above more =
      if-cases Fine (has_data (s.reader) 1)
        (λ yes.
          let ahead =
            instruction-Ahead start end_ small opcode (at_reader r1 s) same (omega (arith, above))
              (ground (arith, yes, same)) in
          (omega (arith, ahead.0), ahead.1 ∙ same))
        (λ no. absurd (ground (arith, no, more)))
    where
      r1 : Reader
      r1 = record (s.reader) { position = s.reader.position + 1 }

      opcode : ℕ
      opcode = little_endian memory 1 (s.reader.position)

      Fine : ℕ × Reader → Type 0
      Fine x =
          let t = instruction memory cie initial_state (x.0) (at_reader (x.1) s) in
          suc (s.reader.position) ≤ t.reader.position × (t.reader.limit ≡ end_)

  run-ends :
      (start end_ : ℕ) (small : SmallLengths memory start end_) (fuel target_pc : ℕ) (s : State)
      → s.reader.limit ≡ end_
      → start ≤ s.reader.position
      → end_ - s.reader.position < fuel
      → run memory cie initial_state fuel target_pc s ≢ unfinished
  unfolding run
  run-ends start end_ small zero target_pc s same above enough = absurd (omega (arith, enough))
  run-ends start end_ small (suc fuel) target_pc s same above enough =
      if-cases Ends (has_data (s.reader) 1)
        (λ more.
          if-both Ends (ltb target_pc (s.current_pc)) (λ e. cc e)
            (let ahead = step-Ahead start end_ small s same above more in
              run-ends start end_ small fuel target_pc (step memory cie initial_state s) (ahead.1)
                (omega (arith, ahead.0, above)) (ground (arith, ahead.0, enough, more, same))))
        (λ at_end e. cc e)
    where
      Ends : Executed → Type 0
      Ends e = e ≢ unfinished

  -- executeCFIInstructions ends within a round for each byte, whatever the bytes are, where no
  -- number that can be read at any place among them, an instruction's operand or not, takes the
  -- reader past the end of the memory.
  pub execute_cfi_instructions-returns :
      (instructions len pc_start target_pc : ℕ) (row : Row)
      → SmallLengths memory instructions (wrap (instructions + len))
      → execute_cfi_instructions memory cie initial_state
          (suc len)
          instructions
          len
          pc_start
          target_pc
          row
        ≢ unfinished
  unfolding execute_cfi_instructions
  execute_cfi_instructions-returns instructions len pc_start target_pc row small =
      run-ends instructions (wrap (instructions + len)) small (suc len) target_pc
        (record {
          reader = reader_at instructions len;
          current_pc = pc_start;
          row = row;
          state_stack = [];
        })
        refl (omega arith) (omega arith)
