-- ===== src/Memory/Chunks.antt =====
-- What `isMemoryReadable` and `ksmem_maxReadableBytes` tell of memory.
use kscrash.Prelude.{
  ℕ, zero, suc, ◌+◌, ◌-◌, ◌≤◌, ◌≡◌, refl, sym, ap, ◌∙◌, inl, inr, Bool, true, false, some, arith,
  ◌==◌, ltb, if◌then◌else◌, uint64_max, Bool-cases, if-cases, ltb→lt, ==_iff, ltb-eq_false,
}
use kscrash.Memory.{
  readable_loop, is_memory_readable, readable_chunks, max_readable_bytes, test_buffer_size,
  copy_max_possible, total_readable,
}
use kscrash.Memory.Longest.{
  run, Documented, copy_max_possible-run, run_short, run-le, run_none, ltb-false,
}

module _ (readable : ℕ → Bool) (copy_safely : ℕ → ℕ → ℕ) where
  abbrev chunk : ℕ → ℕ
  chunk remaining = if ltb test_buffer_size remaining then test_buffer_size else remaining

  chunk-le : (n : ℕ) → chunk n ≤ test_buffer_size
  chunk-le n = ground arith

  chunk_all : (n : ℕ) → n ≤ test_buffer_size → chunk n ≡ n
  chunk_all n h = rw (ltb-eq_false test_buffer_size n h) refl

  -- What can be read in front of the end of a readable run.
  run_part : (n m p : ℕ) → n ≤ m → run readable m p ≡ m → run readable n p ≡ n
  run_part n m p h full = elim (Bool-cases (ltb (run readable n p) n)) [
    | inl short ↦
        let low = ltb→lt (run readable n p) n short in
        let same = run_short readable n (m - n) m p (omega (arith, h)) low in
        absurd (omega (arith, same, low, full, h))
    | inr enough ↦ omega (arith, run-le readable n p, ltb-false (run readable n p) n enough)
  ]

  readable_loop-first_chunk :
      (kernel : Documented readable copy_safely) (fuel memory n : ℕ)
      → n ≤ fuel
      → run readable test_buffer_size memory ≡ test_buffer_size
      → readable_loop copy_safely fuel memory n ≡ 0
  unfolding readable_loop
  readable_loop-first_chunk kernel zero memory n f h = omega (arith, f)
  readable_loop-first_chunk kernel (suc fuel) memory n f h =
      if-cases Fine (n == 0) (λ none_left. refl)
        (λ some_left.
          if-cases Fine (copy_safely memory (chunk n) == chunk n)
            (λ copied.
              readable_loop-first_chunk kernel fuel memory (n - chunk n)
                (ground (arith, f, some_left)) h)
            (λ failed. absurd (clash failed)))
    where
      Fine : ℕ → Type 0
      Fine r = r ≡ 0

      clash : (copy_safely memory (chunk n) == chunk n) ≡ false → ⊥
      clash failed =
          let part = run_part (chunk n) test_buffer_size memory (chunk-le n) h in
          let equal = (==_iff (run readable (chunk n) memory) (chunk n)).1 part in
          cc (failed, kernel memory (chunk n), equal)

  readable_loop_done : (fuel memory : ℕ) → readable_loop copy_safely fuel memory 0 ≡ 0
  unfolding readable_loop
  readable_loop_done zero memory = refl
  readable_loop_done (suc fuel) memory = refl

  one_chunk :
      (kernel : Documented readable copy_safely) (memory n : ℕ)
      → suc n ≤ test_buffer_size
      → (readable_loop copy_safely (suc n) memory (suc n) == 0)
        ≡ (run readable (suc n) memory == suc n)
  unfolding readable_loop
  one_chunk kernel memory n h = rw (ltb-eq_false test_buffer_size (suc n) h) (
      if-cases Fine (suc n == 0) (λ none_left. absurd (ground (arith, none_left)))
        (λ some_left.
          if-cases Fine (copy_safely memory (suc n) == suc n)
            (λ copied.
              ap (λ k. readable_loop copy_safely n memory k == 0) nothing
              ∙ ap (λ r. r == 0) (readable_loop_done n memory)
              ∙ sym copied
              ∙ kernel memory (suc n))
            (λ failed. some_left ∙ sym failed ∙ kernel memory (suc n))))
    where
      Fine : ℕ → Type 0
      Fine r = (r == 0) ≡ (run readable (suc n) memory == suc n)

      nothing : suc n - suc n ≡ 0
      nothing = omega arith

  -- Of no more than 10240 bytes `isMemoryReadable` tells whether all of them can be read.
  pub is_memory_readable-run :
      (kernel : Documented readable copy_safely) (memory byte_count : ℕ)
      → byte_count ≤ test_buffer_size
      → is_memory_readable copy_safely memory byte_count
        ≡ (run readable byte_count memory == byte_count)
  unfolding is_memory_readable
  is_memory_readable-run kernel memory zero h =
      ap (λ r. r == 0) (readable_loop_done 0 memory)
      ∙ ap (λ r. r == 0) (sym (run_none readable memory))
  is_memory_readable-run kernel memory (suc n) h = one_chunk kernel memory n h

  -- `isMemoryReadable` does not move on: where the first 10240 bytes can be read it calls every
  -- longer run readable, whatever follows.
  pub is_memory_readable-first_chunk :
      (kernel : Documented readable copy_safely) (memory byte_count : ℕ)
      → run readable test_buffer_size memory ≡ test_buffer_size
      → is_memory_readable copy_safely memory byte_count ≡ true
  unfolding is_memory_readable
  is_memory_readable-first_chunk kernel memory n h =
      ap (λ r. r == 0) (readable_loop-first_chunk kernel n memory n (omega arith) h)

  stays :
      (n memory : ℕ) → n ≤ test_buffer_size → readable_chunks copy_safely n memory n ≡ (memory, n)
  unfolding readable_chunks
  stays zero memory h = refl
  stays (suc n) memory h = rw (ltb-eq_false test_buffer_size (suc n) h) refl

  -- `ksmem_maxReadableBytes` asks the kernel for the whole test buffer in the end: of fewer bytes
  -- it reports as many as can be read there up to the size of that buffer, however few were asked
  -- for.
  pub max_readable_bytes-excess :
      (kernel : Documented readable copy_safely) (memory try_byte_count : ℕ)
      → try_byte_count ≤ test_buffer_size
      → memory + test_buffer_size ≤ uint64_max
      → max_readable_bytes copy_safely memory try_byte_count
        ≡ some (run readable test_buffer_size memory)
  unfolding max_readable_bytes
  max_readable_bytes-excess kernel memory n few fits =
      ap
        (λ stop.
          total_readable copy_safely n stop
            (copy_max_possible copy_safely (stop.0) test_buffer_size))
        (stays n memory few)
      ∙ ap (total_readable copy_safely n (memory, n))
          (copy_max_possible-run readable copy_safely kernel memory test_buffer_size fits)
      ∙ ap some (omega arith)
