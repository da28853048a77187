-- ===== src/Cursor/Stack.antt =====
-- KSStackCursor.c: what all cursors have. A name is a pointer here, NULL being 0.
use kscrash.Prelude.{ℕ, ◌+◌, Bool, false}

pub record StackEntry : Type 0 where
  pub address : ℕ
  pub image_name : ℕ
  pub image_address : ℕ
  pub symbol_name : ℕ
  pub symbol_address : ℕ

-- The fields `stackEntry` and `state` of `KSStackCursor`.
pub record StackCursor : Type 0 where
  pub stack_entry : StackEntry
  pub current_depth : ℕ
  pub has_given_up : Bool

-- `kssc_resetCursor`, which changes all of these fields.
abbrev pub reset_cursor : StackCursor
reset_cursor = record {
  stack_entry = record {
    address = 0;
    image_name = 0;
    image_address = 0;
    symbol_name = 0;
    symbol_address = 0;
  };
  current_depth = 0;
  has_given_up = false;
}

-- `cursor->stackEntry.address = address; cursor->state.currentDepth++;`
abbrev pub move_to : ℕ → StackCursor → StackCursor
move_to address c = record c {
  stack_entry = record (c.stack_entry) { address = address };
  current_depth = c.current_depth + 1;
}
