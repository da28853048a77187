-- ===== src/File/Descriptor.antt =====
-- `ksfu_writeBytesToFD`, `ksfu_writeStringToFD` and `ksfu_readBytesFromFD`: the loops over what
-- the system calls take and give.
pub mod Whole
use kscrash.Prelude.{
  ℕ, zero, suc, ◌-◌, ◌==◌, Bool, true, false, [], ◌∷◌, ◌++◌, Option, none, some, Bytes, c_string,
  length, drop,
}

-- What `write` returns: -1, or how many bytes it took.
pub data Written : Type 0 where
  write_failed : Written
  wrote : ℕ → Written

-- What `read` returns: -1, or the bytes, none of them at the end of the file.
pub data Received : Type 0 where
  read_failed : Received
  received : Bytes → Received

-- The system: a descriptor is `fd`, and `World` is all that lies outside of the process.
pub record System (World : Type 0) : Type 0 where
  pub write : ℕ → Bytes → World → Written × World
  pub read : ℕ → ℕ → World → Received × World

module _ {World : Type 0} where
  -- A round of the writing loop, once `write` has returned.
  abbrev pub after_write :
      Bytes → (Bytes → World → Option (Bool × World)) → Written × World → Option (Bool × World)
  after_write bytes again (write_failed, w) = some (false, w)
  after_write bytes again (wrote n, w) = again (drop n bytes) w

  -- A round of the reading loop, once `read` has returned.
  abbrev pub after_read :
      ℕ
      → Bytes
      → (ℕ → Bytes → World → Option (Bool × Bytes × World))
      → Received × World
      → Option (Bool × Bytes × World)
  after_read wanted got again (read_failed, w) = some (false, got, w)
  after_read wanted got again (received [], w) = some (false, got, w)
  after_read wanted got again (received (b ∷ bs), w) =
      again (wanted - length (b ∷ bs)) (got ++ b ∷ bs) w

module _ {World : Type 0} (system : System World) (fd : ℕ) where
  open system use {write, read}

  -- The loop of `ksfu_writeBytesToFD`. `none` stands for a lack of fuel: where `write` keeps on
  -- returning 0, the source never ends.
  unfoldable pub write_loop : ℕ → Bytes → World → Option (Bool × World)
  write_loop fuel [] w = some (true, w)
  write_loop zero (b ∷ bs) w = none
  write_loop (suc fuel) (b ∷ bs) w = after_write (b ∷ bs) (write_loop fuel) (write fd (b ∷ bs) w)

  -- `ksfu_writeBytesToFD`, on as many rounds as there are bytes.
  unfoldable pub write_bytes_to_fd : Bytes → World → Option (Bool × World)
  write_bytes_to_fd bytes w = write_loop (length bytes) bytes w

  -- `ksfu_writeStringToFD`: an empty string is an error.
  unfoldable pub write_string_to_fd : Bytes → World → Option (Bool × World)
  write_string_to_fd string w = elim (c_string string) [
    | [] ↦ some (false, w)
    | c ∷ cs ↦ write_bytes_to_fd (c ∷ cs) w
  ]

  -- The loop of `ksfu_readBytesFromFD`: the bytes are what it has put into the buffer.
  unfoldable pub read_loop : ℕ → ℕ → Bytes → World → Option (Bool × Bytes × World)
  read_loop fuel zero got w = some (true, got, w)
  read_loop zero (suc wanted) got w = none
  read_loop (suc fuel) (suc wanted) got w =
      after_read (suc wanted) got (read_loop fuel) (read fd (suc wanted) w)

  -- `ksfu_readBytesFromFD`.
  unfoldable pub read_bytes_from_fd : ℕ → World → Option (Bool × Bytes × World)
  read_bytes_from_fd wanted w = read_loop wanted wanted [] w
