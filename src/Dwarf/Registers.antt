-- ===== src/Dwarf/Registers.antt =====
-- The registers of a frame, on the two 64-bit architectures of the code.
use kscrash.Prelude.{ℕ, Option, none, some, ◌==◌, if◌then◌else◌}

pub data Arch : Type 0 where
  arm64 : Arch
  x86_64 : Arch

-- What is known of a frame: the parameters `sp`, `fp` and `lr`.
pub record Frame : Type 0 where
  pub sp : ℕ
  pub fp : ℕ
  pub lr : ℕ

-- `getRegisterValue`.
unfoldable pub get_register_value : Arch → Frame → ℕ → Option ℕ
get_register_value arm64 f reg_num =
    if reg_num == 31
    then some (f.sp)
    else if reg_num == 29
    then some (f.fp)
    else if reg_num == 30
    then some (f.lr)
    else none
get_register_value x86_64 f reg_num =
    if reg_num == 7 then some (f.sp) else if reg_num == 6 then some (f.fp) else none

-- `getReturnAddressRegister`.
unfoldable pub get_return_address_register : Arch → ℕ
get_return_address_register arm64 = 30
get_return_address_register x86_64 = 16

-- `getFramePointerRegister`.
unfoldable pub get_frame_pointer_register : Arch → ℕ
get_frame_pointer_register arm64 = 29
get_frame_pointer_register x86_64 = 6
