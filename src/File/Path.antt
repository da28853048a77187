-- ===== src/File/Path.antt =====
-- The paths: `ksfu_lastPathEntry`, `canDeletePath` and `ksfu_makePath`.
pub mod Entry
use kscrash.Prelude.{
  ℕ, zero, suc, Bool, true, false, ◌&&◌, not, [], ◌∷◌, ◌++◌, Option, none, some, Bytes, codes, ◌==◌,
  if◌then◌else◌,
}

-- `strrchr(string, c) + 1`: what follows the last `c`.
unfoldable pub after_last : ℕ → Bytes → Option Bytes
after_last c [] = none
after_last c (x ∷ xs) = elim (after_last c xs) [
  | none ↦ if x == c then some xs else none
  | some rest ↦ some rest
]

abbrev pub or_whole : Bytes → Option Bytes → Bytes
or_whole whole none = whole
or_whole whole (some rest) = rest

unfoldable pub last_component : Bytes → Bytes
last_component path = or_whole path (after_last b'/' path)

-- `ksfu_lastPathEntry`; NULL is `none`.
unfoldable pub last_path_entry : Option Bytes → Option Bytes
last_path_entry none = none
last_path_entry (some path) = some (last_component path)

-- `strcmp(a, b) == 0`.
abbrev pub is_same : Bytes → Bytes → Bool
is_same [] [] = true
is_same (a ∷ as') (b ∷ bs) = a == b && is_same as' bs
is_same [] (b ∷ bs) = false
is_same (a ∷ as') [] = false

unfoldable pub can_delete_path : Bytes → Bool
can_delete_path path =
    let last = last_component path in
    if is_same last (codes ".") then false else if is_same last (codes "..") then false else true

-- The result of `mkdir` is false where it is negative and errno is not EEXIST.
module _ {World : Type 0} (mkdir : Bytes → World → Bool × World) where
  -- The loop of `ksfu_makePath`, behind the first byte: `front` is what has been passed.
  unfoldable pub make_parents : Bytes → Bytes → World → Bool × World
  make_parents front [] w = (true, w)
  make_parents front (c ∷ cs) w =
      let made : Bool × World = if c == b'/' then mkdir front w else (true, w) in
      let later = make_parents (front ++ c ∷ []) cs (made.1) in
      if made.0 then later else (false, made.1)

  abbrev pub last_mkdir : Bytes → Bool × World → Bool × World
  last_mkdir path (true, w) = mkdir path w
  last_mkdir path (false, w) = (false, w)

  -- `ksfu_makePath` of a path that is not empty.
  unfoldable pub make_path : ℕ → Bytes → World → Bool × World
  make_path first path w = last_mkdir (first ∷ path) (make_parents (first ∷ []) path w)
