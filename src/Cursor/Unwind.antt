-- ===== src/Cursor/Unwind.antt =====
-- Unwind/KSStackCursor_Unwind.c, on the two 64-bit architectures. The registers of the machine
-- context, the binary images and the memory are parameters.
pub mod Walk
pub mod Chain
use kscrash.Prelude.{
  ℕ, zero, suc, ◌+◌, ◌≤◌, Bool, true, false, ◌&&◌, ◌||◌, not, Option, none, some, List, [], ◌∷◌,
  take, replicate, ◌++◌, ◌==◌, ltb, leb, if◌then◌else◌,
}
use kscrash.Dwarf.Reader.{Memory, wrap}
use kscrash.Dwarf.Registers.{Arch, arm64, x86_64, Frame}
use kscrash.Dwarf.Unwind.{
  UnwindResult, Outcome, done, returned_false, ◌>>=◌, of_option, unwind as dwarf_unwind,
}
use kscrash.Dwarf.Unwind
use kscrash.Compact.Section.{find_entry, encoding_requires_dwarf, UnwindEntry}
use kscrash.Compact.Decode.{Unwound, unwound, decode}
use kscrash.Images.{ImageInfo}
use kscrash.Cursor.Stack.{StackCursor, reset_cursor, move_to}

-- `KSUnwindMethod`.
pub data UnwindMethod : Type 0 where
  no_method : UnwindMethod
  compact_unwind : UnwindMethod
  dwarf : UnwindMethod
  frame_pointer : UnwindMethod

abbrev pub max_methods : ℕ
max_methods = 3

-- What the cursor reads from elsewhere: the registers of the machine context (the functions
-- `kscpu_instructionAddress` to `kscpu_linkRegister`), `kscpu_normaliseInstructionPointer`,
-- `ksbic_getUnwindInfoForAddress`, the memory, and reads of two words out of it.
pub record Environment : Type 0 where
  pub arch : Arch
  pub instruction_address : ℕ
  pub registers : Frame
  pub normalise : ℕ → ℕ
  pub image_at : ℕ → Option ImageInfo
  pub memory : Memory
  pub safe_pair : ℕ → Option (ℕ × ℕ)

-- `UnwindCursorContext`, with `methods` up to its three places; and the cursor that it belongs to.
pub record Context : Type 0 where
  pub max_stack_depth : ℕ
  pub pc : ℕ
  pub registers : Frame
  pub is_first_frame : Bool
  pub used_link_register : Bool
  pub last_method : UnwindMethod
  pub methods : List UnwindMethod
  pub current_frame : ℕ × ℕ

pub record Cursor : Type 0 where
  pub base : StackCursor
  pub context : Context

-- What `advanceCursor` does: it returns true or false, or does not come to an end.
pub data Advance : Type 0 where
  advanced : Cursor → Advance
  stopped : Cursor → Advance
  unfinished : Advance

-- A method that fails leaves the context as it is, and the next one is tried.
abbrev pub or_else {ℓ} : {A : Type ℓ} → Outcome A → Outcome A → Outcome A
or_else (done a) other = done a
or_else returned_false other = other
or_else Outcome.unfinished other = Outcome.unfinished

-- The loop over `methods`.
unfoldable pub first_of_methods {ℓ} :
    {A : Type ℓ} → (UnwindMethod → Outcome A) → List UnwindMethod → Outcome A
first_of_methods try_method [] = returned_false
first_of_methods try_method (no_method ∷ methods) = returned_false
first_of_methods try_method (compact_unwind ∷ methods) =
    or_else (try_method compact_unwind) (first_of_methods try_method methods)
first_of_methods try_method (dwarf ∷ methods) =
    or_else (try_method dwarf) (first_of_methods try_method methods)
first_of_methods try_method (frame_pointer ∷ methods) =
    or_else (try_method frame_pointer) (first_of_methods try_method methods)

-- The new registers of a frame that has been unwound by a method.
abbrev pub take_result : UnwindMethod → Unwound → Context → Context
take_result method u c = record c {
  registers = record (c.registers) { sp = u.stack_pointer; fp = u.frame_pointer };
  pc = u.return_address;
  last_method = method;
}

-- `newFP != 0 && newFP <= ctx->fp`.
abbrev pub wrong_direction : ℕ → ℕ → Bool
wrong_direction new_fp fp = not (new_fp == 0) && leb new_fp fp

abbrev pub with_fp : ℕ → Context → Context
with_fp fp c = record c { registers = record (c.registers) { fp = fp } }

-- `fuel` is for the loops over the instructions of the DWARF format.
module _ (e : Environment) (fuel : ℕ) where
  -- `tryCompactUnwindForPC` behind the look for the entry, and behind that for the image.
  abbrev pub decode_entry : Frame → Option UnwindEntry → Option Unwound
  decode_entry frame none = none
  decode_entry frame (some entry) =
      if encoding_requires_dwarf (e.arch) (entry.encoding)
      then none
      else decode (e.memory.safe_word) (e.safe_pair) (e.arch) (entry.encoding) frame

  abbrev pub compact_in_image : ℕ → Frame → Option ImageInfo → Option Unwound
  compact_in_image pc frame none = none
  compact_in_image pc frame (some image) =
      if image.has_compact_unwind
      then decode_entry frame (
          find_entry (e.memory) (image.unwind_info) (image.unwind_info_size) pc (image.header)
            (image.slide))
      else none

  unfoldable pub try_compact_unwind : ℕ → Frame → Outcome Unwound
  try_compact_unwind pc frame = of_option (compact_in_image pc frame (e.image_at pc))

  -- `tryDwarfUnwindForPC`.
  abbrev pub dwarf_in_image : ℕ → Frame → Option ImageInfo → Outcome Unwound
  dwarf_in_image pc frame none = returned_false
  dwarf_in_image pc frame (some image) =
      if image.has_eh_frame
      then (dwarf_unwind (e.memory) (e.arch) fuel (image.eh_frame) (image.eh_frame_size) pc frame
          >>= λ r. done (unwound (r.return_address) (r.stack_pointer) (r.frame_pointer)))
      else returned_false

  unfoldable pub try_dwarf_unwind : ℕ → Frame → Outcome Unwound
  try_dwarf_unwind pc frame = dwarf_in_image pc frame (e.image_at pc)

  -- `tryFramePointerUnwind` behind the read of the frame: the return address and the new context.
  abbrev pub step_frame : Context → Option (ℕ × ℕ) → Outcome (ℕ × Context)
  step_frame c none = returned_false
  step_frame c (some (previous, return_address)) =
      if return_address == 0 || wrong_direction previous (c.registers.fp)
      then returned_false
      else done (
        return_address,
        record c {
          current_frame = (previous, return_address);
          registers = record (c.registers) { sp = wrap (c.registers.fp + 16); fp = previous };
        },
      )

  unfoldable pub try_frame_pointer_unwind : Context → Outcome (ℕ × Context)
  try_frame_pointer_unwind c =
      if c.registers.fp == 0 then returned_false else step_frame c (e.safe_pair (c.registers.fp))

  -- `tryUnwindWithMethod`.
  abbrev pub try_unwind_with_method : Context → UnwindMethod → Outcome (ℕ × Context)
  try_unwind_with_method c no_method = returned_false
  try_unwind_with_method c compact_unwind = try_compact_unwind (c.pc) (c.registers) >>= λ u.
      done (u.return_address, take_result compact_unwind u c)
  try_unwind_with_method c dwarf =
      try_dwarf_unwind (c.pc) (c.registers) >>= λ u. done (u.return_address, take_result dwarf u c)
  try_unwind_with_method c frame_pointer = try_frame_pointer_unwind c >>= λ r.
      done (r.0, record (r.1) { pc = r.0; last_method = frame_pointer })

  abbrev pub update_by_frame : Context → Option (ℕ × ℕ) → Outcome Context
  update_by_frame c none = returned_false
  update_by_frame c (some (previous, return_address)) =
      if wrong_direction previous (c.registers.fp)
      then returned_false
      else done (record (with_fp previous c) { pc = c.registers.lr })

  -- One method of `tryUpdateStateAfterLR`.
  abbrev pub update_with_method : Context → UnwindMethod → Outcome Context
  update_with_method c no_method = returned_false
  update_with_method c compact_unwind =
      try_compact_unwind (c.pc) (c.registers) >>= λ u. done (take_result compact_unwind u c)
  update_with_method c dwarf =
      try_dwarf_unwind (c.pc) (c.registers) >>= λ u. done (take_result dwarf u c)
  update_with_method c frame_pointer =
      if c.registers.fp == 0
      then returned_false
      else update_by_frame c (e.safe_pair (c.registers.fp))

  -- What `advanceCursor` does if `tryUpdateStateAfterLR` fails.
  abbrev pub fall_back : Context → Option (ℕ × ℕ) → Context
  fall_back c none = record c { pc = c.registers.lr }
  fall_back c (some (previous, return_address)) =
      if wrong_direction previous (c.registers.fp)
      then record c { pc = c.registers.lr }
      else record (with_fp previous c) { pc = c.registers.lr }

  abbrev pub read_frame : Context → Option (ℕ × ℕ)
  read_frame c = if c.registers.fp == 0 then none else e.safe_pair (c.registers.fp)

  unfoldable pub update_state_after_lr : Context → Outcome Context
  update_state_after_lr c =
      or_else (first_of_methods (update_with_method c) (c.methods))
        (done (fall_back c (read_frame c)))

  -- The label `successfulExit`.
  abbrev pub succeed : Cursor → Outcome (ℕ × Context) → Advance
  succeed c (done (address, context)) =
      advanced (record { base = move_to (e.normalise address) (c.base); context = context })
  succeed c returned_false = stopped c
  succeed c Outcome.unfinished = unfinished

  -- The first frame: the registers of the machine context.
  abbrev pub first_context : Context → Context
  first_context c = record c {
    is_first_frame = false;
    pc = e.instruction_address;
    registers = e.registers;
  }

  unfoldable pub advance_first : Cursor → Advance
  advance_first c =
      let context = first_context (c.context) in
      if e.instruction_address == 0
      then stopped (record c { context = context })
      else succeed c (done (e.instruction_address, context))

  abbrev pub uses_link_register : Arch → Bool
  uses_link_register arm64 = true
  uses_link_register x86_64 = false

  -- The frame of the link register.
  unfoldable pub advance_link_register : Cursor → Advance
  advance_link_register c = succeed c (
      update_state_after_lr (record (c.context) { used_link_register = true }) >>= λ context.
      done (c.context.registers.lr, record context { last_method = no_method }))

  -- `advanceCursor`.
  unfoldable pub advance_cursor : Cursor → Advance
  advance_cursor c =
      if leb (c.context.max_stack_depth) (c.base.current_depth)
      then stopped (record c { base = record (c.base) { has_given_up = true } })
      else if c.context.is_first_frame
      then advance_first c
      else if uses_link_register (e.arch)
          && not (c.context.used_link_register)
          && not (c.context.registers.lr == 0)
      then advance_link_register c
      else succeed c (first_of_methods (try_unwind_with_method (c.context)) (c.context.methods))

-- `resetCursor` of a context with the methods, which a reset keeps.
unfoldable pub reset : ℕ → List UnwindMethod → Cursor
reset max_stack_depth methods = record {
  base = reset_cursor;
  context = record {
    max_stack_depth = max_stack_depth;
    pc = 0;
    registers = record { sp = 0; fp = 0; lr = 0 };
    is_first_frame = true;
    used_link_register = false;
    last_method = no_method;
    methods = methods;
    current_frame = (0, 0);
  };
}

-- `kssc_initWithUnwindMethods`: three places, which KSUnwindMethod_None fills up.
unfoldable pub init_with_unwind_methods : ℕ → List UnwindMethod → Cursor
unfolding reset
init_with_unwind_methods max_stack_depth methods =
    reset max_stack_depth (take max_methods (methods ++ replicate max_methods no_method))

-- `kssc_initWithUnwind`.
unfoldable pub init_with_unwind : ℕ → Cursor
init_with_unwind max_stack_depth =
    init_with_unwind_methods max_stack_depth (compact_unwind ∷ dwarf ∷ frame_pointer ∷ [])

-- `kssc_initWithMachineContext`.
unfoldable pub init_with_machine_context : ℕ → Cursor
init_with_machine_context max_stack_depth =
    init_with_unwind_methods max_stack_depth (frame_pointer ∷ [])
