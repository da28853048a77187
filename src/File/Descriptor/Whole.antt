-- ===== src/File/Descriptor/Whole.antt =====
-- The writing loop delivers everything, or fails.
use kscrash.Prelude.{
  ℕ, zero, suc, ◌≤◌, ◌≡◌, refl, sym, ap, ◌∙◌, Bool, true, false, [], ◌∷◌, ◌++◌, Option, none, some,
  Bytes, arith, length, drop, take, take-append-drop, length-drop, append-nil, append_assoc,
}
use kscrash.File.Descriptor.{
  System, Written, write_failed, wrote, write_loop, write_bytes_to_fd, after_write,
}

module _ {World : Type 0} (system : System World) (fd : ℕ) (output : World → Bytes) where
  -- What POSIX says of one `write` of at least a byte: it fails and writes nothing, or it takes a
  -- part of the bytes from the front, at least one of them. `output` is what the file has got.
  abbrev WroteIs : Bytes → World → Written × World → Type 0
  WroteIs bytes w (write_failed, w') = output w' ≡ output w
  WroteIs bytes w (wrote n, w') =
      (1 ≤ n) × (n ≤ length bytes) × (output w' ≡ output w ++ take n bytes)

  abbrev pub Posix : Type 0
  Posix = (bytes : Bytes) (w : World) → 1 ≤ length bytes → WroteIs bytes w (system.write fd bytes w)

  -- The outcome of writing `bytes`: the loop has ended, either with all of them written or with
  -- an error after a part of them.
  abbrev pub WritesAll : Bytes → World → Option (Bool × World) → Type 0
  WritesAll bytes w none = ⊥
  WritesAll bytes w (some (true, w')) = output w' ≡ output w ++ bytes
  WritesAll bytes w (some (false, w')) =
      (done : Bytes) × (left : Bytes) × (bytes ≡ done ++ left) × (output w' ≡ output w ++ done)

  after_part :
      (n : ℕ) (bytes : Bytes) (w w' : World) (o : Option (Bool × World))
      → output w' ≡ output w ++ take n bytes
      → WritesAll (drop n bytes) w' o
      → WritesAll bytes w o
  after_part n bytes w w' none e h = h
  after_part n bytes w w' (some (true, w'')) e h =
      h
      ∙ ap (λ out. out ++ drop n bytes) e
      ∙ append_assoc (output w) (take n bytes) (drop n bytes)
      ∙ ap (λ all. output w ++ all) (take-append-drop n bytes)
  after_part n bytes w w' (some (false, w'')) e (done, left, split, h) = (
    take n bytes ++ done,
    left,
    sym (take-append-drop n bytes)
        ∙ ap (λ r. take n bytes ++ r) split
        ∙ sym (append_assoc (take n bytes) done left),
    h ∙ ap (λ out. out ++ done) e ∙ append_assoc (output w) (take n bytes) done,
  )

  after_write-WritesAll :
      (again : Bytes → World → Option (Bool × World)) (fuel b : ℕ) (bs : Bytes) (w : World)
      (r : Written × World)
      → ((bytes : Bytes) (w' : World) → length bytes ≤ fuel → WritesAll bytes w' (again bytes w'))
      → WroteIs (b ∷ bs) w r
      → length (b ∷ bs) ≤ suc fuel
      → WritesAll (b ∷ bs) w (after_write (b ∷ bs) again r)
  after_write-WritesAll again fuel b bs w (write_failed, w') all e h =
      ([], b ∷ bs, refl, e ∙ sym (append-nil (output w)))
  after_write-WritesAll again fuel b bs w (wrote n, w') all (some_taken, fits, e) h =
      after_part n (b ∷ bs) w w' (again (drop n (b ∷ bs)) w') e
        (all (drop n (b ∷ bs)) w' (omega (arith, length-drop n (b ∷ bs), h, some_taken)))

  write_loop-WritesAll :
      (posix : Posix) (fuel : ℕ) (bytes : Bytes) (w : World)
      → length bytes ≤ fuel
      → WritesAll bytes w (write_loop system fd fuel bytes w)
  unfolding write_loop
  write_loop-WritesAll posix fuel [] w h = sym (append-nil (output w))
  write_loop-WritesAll posix zero (b ∷ bs) w h = absurd (omega (arith, h))
  write_loop-WritesAll posix (suc fuel) (b ∷ bs) w h =
      after_write-WritesAll (write_loop system fd fuel) fuel b bs w (system.write fd (b ∷ bs) w)
        (write_loop-WritesAll posix fuel) (posix (b ∷ bs) w (omega arith)) h

  -- `ksfu_writeBytesToFD` ends. If it returns true the file has got all the bytes, and if it
  -- returns false some part of them from the front. It supposes what POSIX says of `write`.
  pub write_bytes_to_fd-WritesAll :
      (posix : Posix) (bytes : Bytes) (w : World)
      → WritesAll bytes w (write_bytes_to_fd system fd bytes w)
  unfolding write_bytes_to_fd
  write_bytes_to_fd-WritesAll posix bytes w =
      write_loop-WritesAll posix (length bytes) bytes w (omega arith)
