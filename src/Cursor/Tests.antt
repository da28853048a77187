-- ===== src/Cursor/Tests.antt =====
-- Walks up a stack of two frames, and over a backtrace.
use kscrash.Prelude.{
  ℕ, ◌≡◌, refl, true, false, none, some, [], ◌∷◌, ◌==◌, if◌then◌else◌, Option, arith,
}
use kscrash.Dwarf.Registers.{x86_64}
use kscrash.Cursor.Stack.{reset_cursor}
use kscrash.Cursor.Backtrace
use kscrash.Cursor.Backtrace.{Backtrace, before_end, walk-reset_cursor}
use kscrash.Cursor.Unwind.{
  Environment, Cursor, advanced, advance_cursor, frame_pointer, reset, try_dwarf_unwind,
  first_of_methods, try_frame_pointer_unwind,
}
use kscrash.Cursor.Unwind.Walk.{walk, Finished, DwarfEnds, walk-reset}
use kscrash.Cursor.Unwind.Chain.{frame_methods, advance_times, IsUp, advance_times-IsUp}

-- The last entry is one that the system sometimes adds.
abbrev backtrace : Backtrace
backtrace = record { skipped_entries = 1; addresses = 11 ∷ 22 ∷ 33 ∷ 1 ∷ [] }

walk-reset_cursor_example :
    Backtrace.walk (λ ip. ip) backtrace 4 reset_cursor
    ≡ before_end (λ ip. ip) backtrace (22 ∷ 33 ∷ 1 ∷ [])
walk-reset_cursor_example = walk-reset_cursor (λ ip. ip) backtrace 4 (omega arith)

before_end_test : before_end (λ ip. ip) backtrace (22 ∷ 33 ∷ 1 ∷ []) ≡ 22 ∷ 33 ∷ []
unfolding before_end
before_end_test = refl

abbrev frames : ℕ → Option (ℕ × ℕ)
frames a = if a == 100 then some (200, 70) else if a == 200 then some (0, 90) else none

abbrev environment : Environment
environment = record {
  arch = x86_64;
  instruction_address = 50;
  registers = record { sp = 80; fp = 100; lr = 0 };
  normalise = λ ip. ip;
  image_at = λ pc. none;
  memory = record { byte = λ a. 0; safe_word = λ a. none };
  safe_pair = frames;
}

no_images : DwarfEnds environment 0
unfolding try_dwarf_unwind
no_images pc frame h = cc

walk-reset_example :
    Finished environment 0 no_images 5 5 (walk environment 0 6 (reset 5 frame_methods))
walk-reset_example = walk-reset environment 0 no_images 5 frame_methods

-- The cursor behind the frame of the link register, and two frames up.
abbrev first : Cursor
first = record {
  base = reset_cursor;
  context = record {
    max_stack_depth = 5;
    pc = 50;
    registers = record { sp = 80; fp = 100; lr = 0 };
    is_first_frame = false;
    used_link_register = true;
    last_method = frame_pointer;
    methods = frame_methods;
    current_frame = (0, 0);
  };
}

abbrev third : Cursor
third = record {
  base = record reset_cursor {
    stack_entry = record (reset_cursor.stack_entry) { address = 90 };
    current_depth = 2;
  };
  context = record (first.context) {
    pc = 90;
    registers = record { sp = 216; fp = 0; lr = 0 };
    current_frame = (0, 90);
  };
}

first-third : advance_times environment 0 2 first ≡ advanced third
unfolding advance_times advance_cursor first_of_methods try_frame_pointer_unwind
first-third = refl

advance_times-IsUp_example : IsUp environment 0 2 first third
advance_times-IsUp_example =
    advance_times-IsUp environment 0 2 first third (refl, refl, refl) first-third
