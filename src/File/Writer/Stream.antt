-- ===== src/File/Writer/Stream.antt =====
-- The buffered writer against the stream of all bytes that were written through it.
use kscrash.Prelude.{
  ℕ, suc, ◌+◌, ◌≤◌, ◌≡◌, refl, sym, ap, subst, ◌∙◌, ◌⊎◌, inl, inr, Bool, true, false, [], ◌∷◌, ◌++◌,
  Option, none, some, Bytes, arith, length, length-append, append-nil, append_assoc, ltb,
  if◌then◌else◌, Bool-cases,
}
use kscrash.File.Descriptor.{System, write_bytes_to_fd}
use kscrash.File.Descriptor.Whole.{Posix, WritesAll, write_bytes_to_fd-WritesAll}
use kscrash.File.Writer.{
  BufferedWriter, open_fd, emptied, flush_to, flush_buffered_writer, written, store,
  write_buffered_writer,
}

module _ {World : Type 0} (system : System World) (fd : ℕ) (output : World → Bytes) where
  -- The writer is open, and its buffer is no fuller than it is long.
  abbrev pub IsOpen : ℕ → BufferedWriter → Type 0
  IsOpen size writer =
      (writer.fd ≡ some (suc fd)) × (writer.buffer_length ≡ size) × (length (writer.buffer) ≤ size)

  -- What a writer's call comes to, if `all` is the stream up to and with its bytes: it ends. If it
  -- succeeds the file and the buffer together have the stream, and the writer is open as before.
  -- If it fails the file has a part of the stream from the front.
  abbrev pub StreamIs : ℕ → Bytes → Option (Bool × BufferedWriter × World) → Type 0
  StreamIs size all none = ⊥
  StreamIs size all (some (true, writer, w)) =
      IsOpen size writer × (output w ++ writer.buffer ≡ all)
  StreamIs size all (some (false, writer, w)) = (left : Bytes) × (output w ++ left ≡ all)

  -- The same of the first half of `ksfu_writeBufferedWriter`, which also makes room.
  abbrev RoomIs : ℕ → Bytes → ℕ → Option (Bool × BufferedWriter × World) → Type 0
  RoomIs size all n none = ⊥
  RoomIs size all n (some (true, writer, w)) =
      (writer.fd ≡ some (suc fd))
      × (writer.buffer_length ≡ size)
      × (output w ++ writer.buffer ≡ all)
      × ((writer.buffer ≡ []) ⊎ (n + length (writer.buffer) ≤ size))
  RoomIs size all n (some (false, writer, w)) = (left : Bytes) × (output w ++ left ≡ all)

  part : (start all done left : Bytes) → all ≡ done ++ left → (start ++ done) ++ left ≡ start ++ all
  part start all done left e = append_assoc start done left ∙ ap (λ t. start ++ t) (sym e)

  emptied-RoomIs :
      (size n : ℕ) (writer : BufferedWriter) (w : World) (o : Option (Bool × World))
      → IsOpen size writer
      → WritesAll system (suc fd) output (writer.buffer) w o
      → RoomIs size (output w ++ writer.buffer) n (emptied system writer o)
  emptied-RoomIs size n writer w none i h = h
  emptied-RoomIs size n writer w (some (true, w')) (opened, len, fits) h =
      (opened, len, append-nil (output w') ∙ h, inl refl)
  emptied-RoomIs size n writer w (some (false, w')) i (done, left, split, h) =
      (left, ap (λ t. t ++ left) h ∙ part (output w) (writer.buffer) done left split)

  empty : (bytes : Bytes) → ltb 0 (length bytes) ≡ false → bytes ≡ []
  empty [] h = refl
  empty (b ∷ bs) h = absurd (ground (arith, h))

  flush-RoomIs :
      (posix : Posix system (suc fd) output) (size n : ℕ) (writer : BufferedWriter) (w : World)
      → IsOpen size writer
      → RoomIs size (output w ++ writer.buffer) n (flush_buffered_writer system writer w)
  unfolding flush_buffered_writer
  flush-RoomIs posix size n writer w i =
      subst (λ f. RoomIs size (output w ++ writer.buffer) n (flush_to system (open_fd f) writer w))
        (sym (i.0))
        (elim (Bool-cases (ltb 0 (length (writer.buffer)))) [
          | inl holds ↦ rw holds (
              emptied-RoomIs size n writer w (write_bytes_to_fd system (suc fd) (writer.buffer) w) i
                (write_bytes_to_fd-WritesAll system (suc fd) output posix (writer.buffer) w))
          | inr nothing ↦ rw nothing (i.0, i.1, refl, inl (empty (writer.buffer) nothing))
        ])

  written-StreamIs :
      (size : ℕ) (all bytes : Bytes) (writer : BufferedWriter) (w : World)
      (o : Option (Bool × World))
      → IsOpen size writer
      → writer.buffer ≡ []
      → output w ≡ all
      → WritesAll system (suc fd) output bytes w o
      → StreamIs size (all ++ bytes) (written system writer o)
  written-StreamIs size all bytes writer w none i e a h = h
  written-StreamIs size all bytes writer w (some (true, w')) i e a h =
      (i, ap (λ t. output w' ++ t) e ∙ append-nil (output w') ∙ h ∙ ap (λ t. t ++ bytes) a)
  written-StreamIs size all bytes writer w (some (false, w')) i e a (done, left, split, h) =
      (left, ap (λ t. t ++ left) h ∙ part (output w) bytes done left split ∙ ap (λ t. t ++ bytes) a)

  store-StreamIs :
      (posix : Posix system (suc fd) output) (size : ℕ) (all bytes : Bytes)
      (m : Option (Bool × BufferedWriter × World))
      → RoomIs size all (length bytes) m
      → StreamIs size (all ++ bytes) (store system bytes m)
  store-StreamIs posix size all bytes none h = h
  store-StreamIs posix size all bytes (some (false, writer, w)) (left, h) =
      (left ++ bytes, sym (append_assoc (output w) left bytes) ∙ ap (λ t. t ++ bytes) h)
  store-StreamIs posix size all bytes (some (true, writer, w)) (opened, len, h, room) =
      elim (Bool-cases (ltb (writer.buffer_length) (length bytes))) [
        | inl large ↦
            rw (large, opened)
              (elim room [
                | inl none_left ↦
                    written-StreamIs size all bytes writer w
                      (write_bytes_to_fd system (suc fd) bytes w)
                      (opened, len, omega (arith, ap length none_left)) none_left
                      (sym (append-nil (output w)) ∙ ap (λ t. output w ++ t) (sym none_left) ∙ h)
                      (write_bytes_to_fd-WritesAll system (suc fd) output posix bytes w)
                | inr fits ↦ absurd (ground (arith, large, len, fits))
              ])
        | inr small ↦ rw small (
          (
            opened,
            len,
            elim room [
              | inl none_left ↦
                  ground
                    (arith, small, len, ap length none_left, length-append (writer.buffer) bytes)
              | inr fits ↦ omega (arith, fits, length-append (writer.buffer) bytes)
            ],
          ),
          sym (append_assoc (output w) (writer.buffer) bytes) ∙ ap (λ t. t ++ bytes) h,
        )
      ]

  -- `ksfu_writeBufferedWriter` on an open writer, over a system whose `write` does what POSIX
  -- says. It ends. If it succeeds the file and the buffer together have what they had and then
  -- the new bytes, and the writer is open with a buffer no fuller than it is long. If it fails
  -- the file has a part of that stream from the front.
  pub write_buffered_writer-StreamIs :
      (posix : Posix system (suc fd) output) (size : ℕ) (bytes : Bytes) (writer : BufferedWriter)
      (w : World)
      → IsOpen size writer
      → StreamIs size
          ((output w ++ writer.buffer) ++ bytes)
          (write_buffered_writer system bytes writer w)
  unfolding write_buffered_writer
  write_buffered_writer-StreamIs posix size bytes writer w i =
      store-StreamIs posix size (output w ++ writer.buffer) bytes room room-RoomIs
    where
      full : Bool
      full = ltb (writer.buffer_length) (length bytes + length (writer.buffer))

      room : Option (Bool × BufferedWriter × World)
      room = if full then flush_buffered_writer system writer w else some (true, writer, w)

      room-RoomIs : RoomIs size (output w ++ writer.buffer) (length bytes) room
      room-RoomIs = elim (Bool-cases full) [
        | inl needed ↦ rw needed (flush-RoomIs posix size (length bytes) writer w i)
        | inr enough ↦ rw enough (i.0, i.1, refl, inr (ground (arith, enough, i.1)))
      ]
