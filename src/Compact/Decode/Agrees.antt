-- ===== src/Compact/Decode/Agrees.antt =====
-- Of a function with a frame the compact decoders recover what the DWARF unwinder does.
use kscrash.Prelude.{
  ℕ, ◌+◌, ◌-◌, ◌≡◌, ◌≢◌, ◌<◌, refl, ap, ◌∙◌, Option, none, some, arith, ◌==◌, if-both, ==-eq_false,
  ◌%◌, ◌/◌, ◌^◌,
}
use kscrash.Dwarf.Reader.{Memory, wrap, word_mod}
use kscrash.Dwarf.Registers.{
  Arch, arm64, x86_64, Frame, get_register_value, get_return_address_register,
  get_frame_pointer_register,
}
use kscrash.Dwarf.Row.{RegisterRule, Row, offset_rule, zero_rule, zero_row, set_rule}
use kscrash.Dwarf.Unwind.{done, unwind_row, apply_register_rule}
use kscrash.Compact.Section.{mode_of}
use kscrash.Compact.Decode.{
  decode, Unwound, arm64_decode, arm64_frame, save_pairs, save_pair, put_pair, below, x86_64_decode,
  x86_64_frame, strip_pac,
}

-- A register that is saved `n` bytes below the CFA.
abbrev saved_below : ℕ → RegisterRule
saved_below n = record zero_rule { rule_type = offset_rule; offset = word_mod - n }

-- The row of a function that has pushed the frame pointer and made a frame: the CFA is 16 above
-- the frame pointer, which stands 16 below the CFA, and the return address 8 below it.
abbrev pub frame_row : Arch → Row
frame_row arch =
    let row = record zero_row {
      cfa_rule = offset_rule;
      cfa_register = get_frame_pointer_register arch;
      cfa_offset = 16;
    } in
    set_rule (get_return_address_register arch) (λ _. saved_below 8)
      (set_rule (get_frame_pointer_register arch) (λ _. saved_below 16) row)

-- The mode of an encoding for a function with a frame.
abbrev pub IsFrameMode : Arch → ℕ → Type 0
IsFrameMode arm64 encoding = mode_of encoding ≡ 4
IsFrameMode x86_64 encoding = mode_of encoding ≡ 1

-- The decoder for arm64 clears what authenticates a pointer.
abbrev pub stripped : Arch → ℕ → ℕ
stripped arm64 ip = strip_pac ip
stripped x86_64 ip = ip

abbrev pub Registers : Type 0
Registers = ℕ × ℕ × ℕ

abbrev pub registers : Unwound → Registers
registers u = (u.return_address, u.stack_pointer, u.frame_pointer)

abbrev pub registers_of : Option Unwound → Option Registers
registers_of none = none
registers_of (some u) = some (registers u)

module _ (memory : Memory) (safe_pair : ℕ → Option (ℕ × ℕ)) (fuel : ℕ) where
  unwind_row-frame :
      (arch : Arch) (frame : Frame) (return_address previous : ℕ)
      → frame.fp + 16 < word_mod
      → memory.safe_word (frame.fp + 8) ≡ some return_address
      → memory.safe_word (frame.fp) ≡ some previous
      → unwind_row memory arch fuel frame (frame_row arch)
        ≡ done (record {
          return_address = return_address;
          stack_pointer = frame.fp + 16;
          frame_pointer = previous;
        })
  unfolding unwind_row apply_register_rule get_register_value get_return_address_register
      get_frame_pointer_register set_rule
  unwind_row-frame arm64 frame return_address previous room ra fp =
      let cfa = wrap (frame.fp + 16) in
      let a : wrap (cfa + (word_mod - 8)) ≡ frame.fp + 8 = omega (arith, room) in
      let b : wrap (cfa + (word_mod - 16)) ≡ frame.fp = omega (arith, room) in
      let c : cfa ≡ frame.fp + 16 = omega (arith, room) in
      rw (ap (memory.safe_word) a ∙ ra) (rw (ap (memory.safe_word) b ∙ fp) (rw c refl))
  unwind_row-frame x86_64 frame return_address previous room ra fp =
      let cfa = wrap (frame.fp + 16) in
      let a : wrap (cfa + (word_mod - 8)) ≡ frame.fp + 8 = omega (arith, room) in
      let b : wrap (cfa + (word_mod - 16)) ≡ frame.fp = omega (arith, room) in
      let c : cfa ≡ frame.fp + 16 = omega (arith, room) in
      rw (ap (memory.safe_word) a ∙ ra) (rw (ap (memory.safe_word) b ∙ fp) (rw c refl))

  put_pair-registers :
      (k : ℕ) (pair : Option (ℕ × ℕ)) (u : Unwound)
      → registers (put_pair (memory.safe_word) safe_pair k pair u) ≡ registers u
  put_pair-registers k none u = refl
  put_pair-registers k (some (first, second)) u = refl

  save_pair-registers :
      (encoding k : ℕ) (start : ℕ × Unwound)
      → registers ((save_pair (memory.safe_word) safe_pair encoding k start).1)
        ≡ registers (start.1)
  save_pair-registers encoding k (address, u) =
      if-both (λ (x : ℕ × Unwound). registers (x.1) ≡ registers u) (encoding / 2 ^ k % 2 == 1)
        (put_pair-registers k (safe_pair (below address 8)) u) refl

  -- The saved registers do not change the others.
  save_pairs-registers :
      (encoding : ℕ) (start : ℕ × Unwound)
      → registers (save_pairs (memory.safe_word) safe_pair encoding start) ≡ registers (start.1)
  unfolding save_pairs
  save_pairs-registers encoding start =
      save_pair-registers encoding 4 _
      ∙ save_pair-registers encoding 3 _
      ∙ save_pair-registers encoding 2 _
      ∙ save_pair-registers encoding 1 _
      ∙ save_pair-registers encoding 0 start

  decode-frame :
      (arch : Arch) (encoding : ℕ) (frame : Frame) (return_address previous : ℕ)
      → IsFrameMode arch encoding
      → frame.fp ≢ 0
      → frame.fp + 16 < word_mod
      → memory.safe_word (frame.fp + 8) ≡ some return_address
      → memory.safe_word (frame.fp) ≡ some previous
      → registers_of (decode (memory.safe_word) safe_pair arch encoding frame)
        ≡ some (stripped arch return_address, frame.fp + 16, previous)
  unfolding decode arm64_decode arm64_frame x86_64_decode x86_64_frame
  decode-frame arm64 encoding frame return_address previous mode real room ra fp =
      let above : wrap (frame.fp + 8) ≡ frame.fp + 8 = omega (arith, room) in
      let cfa : wrap (frame.fp + 16) ≡ frame.fp + 16 = omega (arith, room) in
      rw mode (
        rw (==-eq_false (frame.fp) 0 real) (
          rw (ap (memory.safe_word) above ∙ ra) (
            rw fp (
              ap some (save_pairs-registers encoding _)
              ∙ ap (λ sp. some (strip_pac return_address, sp, previous)) cfa))))
  decode-frame x86_64 encoding frame return_address previous mode real room ra fp =
      let above : wrap (frame.fp + 8) ≡ frame.fp + 8 = omega (arith, room) in
      let cfa : wrap (frame.fp + 16) ≡ frame.fp + 16 = omega (arith, room) in
      rw mode (
        rw (==-eq_false (frame.fp) 0 real)
          (rw (ap (memory.safe_word) above ∙ ra) (rw fp (rw cfa refl))))

  -- Of a function whose frame pointer and return address are saved in a frame that can be read, the
  -- compact decoder and the DWARF unwinder on the row that describes that frame recover the same
  -- stack pointer, the same frame pointer and the same return address, which the decoder for arm64
  -- strips of its authentication bits.
  pub decode-unwind_row :
      (arch : Arch) (encoding : ℕ) (frame : Frame) (return_address previous : ℕ)
      → IsFrameMode arch encoding
      → frame.fp ≢ 0
      → frame.fp + 16 < word_mod
      → memory.safe_word (frame.fp + 8) ≡ some return_address
      → memory.safe_word (frame.fp) ≡ some previous
      → (registers_of (decode (memory.safe_word) safe_pair arch encoding frame)
          ≡ some (stripped arch return_address, frame.fp + 16, previous))
        × (unwind_row memory arch fuel frame (frame_row arch)
            ≡ done (record {
              return_address = return_address;
              stack_pointer = frame.fp + 16;
              frame_pointer = previous;
            }))
  decode-unwind_row arch encoding frame return_address previous mode real room ra fp = (
    decode-frame arch encoding frame return_address previous mode real room ra fp,
    unwind_row-frame arch frame return_address previous room ra fp,
  )
