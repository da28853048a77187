-- ===== src/Memory/Tests.antt =====
-- Runs over memory whose first 10240 bytes can be read, and no others.
use kscrash.Prelude.{ℕ, ◌≡◌, refl, Bool, true, some, arith, ◌==◌, ltb}
use kscrash.Memory.{
  copy_max_loop, copy_max_possible, is_memory_readable, max_readable_bytes, test_buffer_size,
}
use kscrash.Memory.Longest.{run, Documented, copy_max_possible-run}
use kscrash.Memory.Chunks.{
  is_memory_readable-run, is_memory_readable-first_chunk, max_readable_bytes-excess,
}

abbrev readable : ℕ → Bool
readable p = ltb p 10240

abbrev kernel_copy : ℕ → ℕ → ℕ
kernel_copy p n = run readable n p

documented : Documented readable kernel_copy
documented p n = refl

first_chunk : run readable test_buffer_size 0 ≡ test_buffer_size
unfolding run
first_chunk = refl

copy_max_possible-run_example :
    copy_max_possible kernel_copy 10234 20 ≡ some (run readable 20 10234)
copy_max_possible-run_example =
    copy_max_possible-run readable kernel_copy documented 10234 20 (omega arith)

copies_six : copy_max_possible kernel_copy 10234 20 ≡ some 6
unfolding copy_max_possible copy_max_loop run
copies_six = refl

is_memory_readable-run_example :
    is_memory_readable kernel_copy 10234 20 ≡ (run readable 20 10234 == 20)
is_memory_readable-run_example =
    is_memory_readable-run readable kernel_copy documented 10234 20 (omega arith)

is_memory_readable-first_chunk_example : is_memory_readable kernel_copy 0 20000 ≡ true
is_memory_readable-first_chunk_example =
    is_memory_readable-first_chunk readable kernel_copy documented 0 20000 first_chunk

max_readable_bytes-excess_example :
    max_readable_bytes kernel_copy 0 4 ≡ some (run readable test_buffer_size 0)
max_readable_bytes-excess_example =
    max_readable_bytes-excess readable kernel_copy documented 0 4 (omega arith) (omega arith)
