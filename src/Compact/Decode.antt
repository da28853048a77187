-- ===== src/Compact/Decode.antt =====
-- The decoders KSCompactUnwind_arm64.c, KSCompactUnwind_x86_64.c, KSCompactUnwind_arm.c and
-- KSCompactUnwind_x86.c, over `safe_word`, which is `readPtr`. The other uses of the memory are
-- reads of a pair of words.
pub mod Agrees
use kscrash.Prelude.{
  ℕ, ◌+◌, ◌-◌, ◌*◌, ◌/◌, ◌%◌, ◌^◌, bit_or, ◌||◌, Option, none, some, List, replicate, set, ◌==◌,
  if◌then◌else◌,
}
use kscrash.Dwarf.Reader.{wrap, word_mod}
use kscrash.Dwarf.Registers.{Arch, arm64, x86_64, Frame}
use kscrash.Compact.Section.{mode_of, u32_mod}

-- `KSCompactUnwindResult` of a call that returns true.
pub record Unwound : Type 0 where
  pub return_address : ℕ
  pub stack_pointer : ℕ
  pub frame_pointer : ℕ
  pub saved_registers : List ℕ
  pub saved_register_mask : ℕ

-- A result with no saved registers.
abbrev pub unwound : ℕ → ℕ → ℕ → Unwound
unwound return_address stack_pointer frame_pointer = record {
  return_address = return_address;
  stack_pointer = stack_pointer;
  frame_pointer = frame_pointer;
  saved_registers = replicate 16 0;
  saved_register_mask = 0;
}

-- The address that is `n` bytes below.
abbrev pub below : ℕ → ℕ → ℕ
below address n = wrap (address + (word_mod - n))

-- What follows `if (!readPtr(...)) return false;`
abbrev pub on_read : Option ℕ → (ℕ → Option Unwound) → Option Unwound
on_read none next = none
on_read (some value) next = next value

-- `stripPAC` of the decoder for arm64, and what clears the Thumb bit.
abbrev pub strip_pac : ℕ → ℕ
strip_pac ip = ip % 2 ^ 36

abbrev pub clear_thumb : ℕ → ℕ
clear_thumb address = address - address % 2

module _ (safe_word : ℕ → Option ℕ) where
  module _ (safe_pair : ℕ → Option (ℕ × ℕ)) where
    -- The registers of the pair `k`, where they could be read.
    abbrev pub put_pair : ℕ → Option (ℕ × ℕ) → Unwound → Unwound
    put_pair k none u = u
    put_pair k (some (first, second)) u = record u {
      saved_registers = set (set (u.saved_registers) (2 * k) first) (2 * k + 1) second;
      saved_register_mask = bit_or (u.saved_register_mask) (3 * 4 ^ k);
    }

    -- One of the five blocks, from X19 and X20 on, with `regSaveAddr`.
    abbrev pub save_pair : ℕ → ℕ → ℕ × Unwound → ℕ × Unwound
    save_pair encoding k (address, u) =
        if encoding / 2 ^ k % 2 == 1
        then (below address 16, put_pair k (safe_pair (below address 8)) u)
        else (address, u)

    unfoldable pub save_pairs : ℕ → ℕ × Unwound → Unwound
    save_pairs encoding start =
        (save_pair encoding 4 (
          save_pair encoding 3
            (save_pair encoding 2 (save_pair encoding 1 (save_pair encoding 0 start))))).1

    -- The mode KSCU_UNWIND_ARM64_MODE_FRAME.
    unfoldable pub arm64_frame : ℕ → ℕ → Option Unwound
    arm64_frame encoding fp =
        if fp == 0
        then none
        else on_read (safe_word (wrap (fp + 8))) (λ return_address.
          on_read (safe_word fp) (λ previous. some (
            save_pairs encoding
              (below fp 8, unwound (strip_pac return_address) (wrap (fp + 16)) previous))))

    -- KSCU_UNWIND_ARM64_MODE_FRAMELESS.
    unfoldable pub arm64_frameless : ℕ → ℕ → ℕ → ℕ → Option Unwound
    arm64_frameless encoding sp fp lr =
        let stack_size = encoding / 4096 % 4096 * 16 in
        if stack_size == 0
        then some (unwound (strip_pac lr) sp fp)
        else on_read (safe_word (wrap (sp + (stack_size - 8)))) (λ return_address.
          some (unwound (strip_pac return_address) (wrap (sp + stack_size)) fp))

    -- `kscu_arm64_decode`.
    unfoldable pub arm64_decode : ℕ → ℕ → ℕ → ℕ → Option Unwound
    arm64_decode encoding sp fp lr =
        if mode_of encoding == 4
        then arm64_frame encoding fp
        else if mode_of encoding == 2
        then arm64_frameless encoding sp fp lr
        else if mode_of encoding == 3
        then none
        else if mode_of encoding == 0
        then some (unwound (strip_pac lr) sp fp)
        else none

  -- The return address on top of the stack.
  unfoldable pub x86_64_leaf : ℕ → ℕ → Option Unwound
  x86_64_leaf sp bp =
      on_read (safe_word sp) (λ return_address. some (unwound return_address (wrap (sp + 8)) bp))

  unfoldable pub x86_64_frame : ℕ → Option Unwound
  x86_64_frame bp =
      if bp == 0
      then none
      else on_read (safe_word (wrap (bp + 8))) (λ return_address.
        on_read (safe_word bp)
          (λ previous. some (unwound return_address (wrap (bp + 16)) previous)))

  unfoldable pub x86_64_frameless : ℕ → ℕ → ℕ → Option Unwound
  x86_64_frameless encoding sp bp =
      let encoded_size = encoding / 65_536 % 256 * 8 in
      if encoded_size == 0
      then x86_64_leaf sp bp
      else on_read (safe_word (wrap (sp + encoded_size)))
          (λ return_address. some (unwound return_address (wrap (sp + (encoded_size + 8))) bp))

  -- `kscu_x86_64_decode`.
  unfoldable pub x86_64_decode : ℕ → ℕ → ℕ → Option Unwound
  x86_64_decode encoding sp bp =
      if mode_of encoding == 1
      then x86_64_frame bp
      else if mode_of encoding == 2
      then x86_64_frameless encoding sp bp
      else if mode_of encoding == 3 || mode_of encoding == 4
      then none
      else if mode_of encoding == 0
      then x86_64_leaf sp bp
      else none

  -- The frame of the two 32-bit architectures, whose return address `change` is applied to.
  abbrev pub frame_32 : (ℕ → ℕ) → ℕ → Option Unwound
  frame_32 change fp =
      if fp == 0
      then none
      else on_read (safe_word ((fp + 4) % u32_mod)) (λ return_address.
        on_read (safe_word fp)
          (λ previous. some (unwound (change return_address) ((fp + 8) % u32_mod) previous)))

  -- `kscu_arm_decode`.
  unfoldable pub arm_decode : ℕ → ℕ → ℕ → ℕ → Option Unwound
  arm_decode encoding sp r7 lr =
      if mode_of encoding == 1 || mode_of encoding == 2
      then frame_32 clear_thumb r7
      else if mode_of encoding == 4
      then none
      else if mode_of encoding == 0
      then some (unwound (clear_thumb lr) sp r7)
      else none

  unfoldable pub x86_leaf : ℕ → ℕ → Option Unwound
  x86_leaf sp bp =
      on_read (safe_word sp)
        (λ return_address. some (unwound return_address ((sp + 4) % u32_mod) bp))

  unfoldable pub x86_frameless : ℕ → ℕ → ℕ → Option Unwound
  x86_frameless encoding sp bp =
      let encoded_size = encoding / 65_536 % 256 * 4 in
      if encoded_size == 0
      then x86_leaf sp bp
      else on_read (safe_word ((sp + encoded_size) % u32_mod))
          (λ return_address. some (unwound return_address ((sp + (encoded_size + 4)) % u32_mod) bp))

  -- `kscu_x86_decode`.
  unfoldable pub x86_decode : ℕ → ℕ → ℕ → Option Unwound
  x86_decode encoding sp bp =
      if mode_of encoding == 1
      then frame_32 (λ address. address) bp
      else if mode_of encoding == 2
      then x86_frameless encoding sp bp
      else if mode_of encoding == 3 || mode_of encoding == 4
      then none
      else if mode_of encoding == 0
      then x86_leaf sp bp
      else none

-- The decoder of the architecture, as `tryCompactUnwindForPC` calls it on the two 64-bit ones.
unfoldable pub decode : (ℕ → Option ℕ) → (ℕ → Option (ℕ × ℕ)) → Arch → ℕ → Frame → Option Unwound
decode safe_word safe_pair arm64 encoding frame =
    arm64_decode safe_word safe_pair encoding (frame.sp) (frame.fp) (frame.lr)
decode safe_word safe_pair x86_64 encoding frame =
    x86_64_decode safe_word encoding (frame.sp) (frame.fp)
