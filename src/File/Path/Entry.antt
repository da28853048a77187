-- ===== src/File/Path/Entry.antt =====
-- What the last entry of a path is, and which paths are never deleted.
use kscrash.Prelude.{
  ℕ, ◌≡◌, refl, ap, ◌⊎◌, inl, inr, true, false, [], ◌∷◌, ◌++◌, Option, none, some, Bytes, codes,
  arith, ◌==◌, if◌then◌else◌, Bool-cases, All,
}
use kscrash.File.Path.{after_last, last_component, or_whole, last_path_entry, can_delete_path}

-- No byte of it is a `c`.
abbrev pub Lacks : ℕ → Bytes → Type 0
Lacks c bytes = All (λ x. (x == c) ≡ false) bytes

abbrev AfterIs : ℕ → Bytes → Option Bytes → Type 0
AfterIs c bytes none = Lacks c bytes
AfterIs c bytes (some rest) = (front : Bytes) × (bytes ≡ front ++ c ∷ rest) × Lacks c rest

step :
    (c x : ℕ) (xs : Bytes) (r : Option Bytes)
    → AfterIs c xs r
    → AfterIs c
        (x ∷ xs)
        (elim r [ none ↦ if x == c then some xs else none | some rest ↦ some rest ])
step c x xs none h = elim (Bool-cases (x == c)) [
  | inl same ↦ rw same ([], ap (λ y. y ∷ xs) (equal x c same), h)
  | inr differs ↦ rw differs (differs, h)
]
  where
    equal : (a b : ℕ) → (a == b) ≡ true → a ≡ b
    equal a b e = ground arith
step c x xs (some rest) (front, e, h) = (x ∷ front, ap (◌∷◌ x) e, h)

after_last-AfterIs : (c : ℕ) (bytes : Bytes) → AfterIs c bytes (after_last c bytes)
unfolding after_last
after_last-AfterIs c [] = tt
after_last-AfterIs c (x ∷ xs) = step c x xs (after_last c xs) (after_last-AfterIs c xs)

-- The entry is the end of the path, holds no slash, and is the whole path or follows a slash.
abbrev pub IsEntry : Bytes → Bytes → Type 0
IsEntry path entry =
    Lacks b'/' entry × ((path ≡ entry) ⊎ ((front : Bytes) × (path ≡ front ++ b'/' ∷ entry)))

or_whole-IsEntry :
    (path : Bytes) (r : Option Bytes)
    → AfterIs b'/' path r
    → (entry : Bytes) × (some (or_whole path r) ≡ some entry) × IsEntry path entry
or_whole-IsEntry path none h = (path, refl, (h, inl refl))
or_whole-IsEntry path (some rest) (front, e, h) = (rest, refl, (h, inr (front, e)))

-- `ksfu_lastPathEntry` of a path gives what follows the last slash, and the whole path without one.
pub last_path_entry-IsEntry :
    (path : Bytes)
    → (entry : Bytes) × (last_path_entry (some path) ≡ some entry) × IsEntry path entry
unfolding last_path_entry last_component
last_path_entry-IsEntry path =
    or_whole-IsEntry path (after_last b'/' path) (after_last-AfterIs b'/' path)

after_last-append : (front : Bytes) → after_last b'/' (front ++ codes "/..") ≡ some (codes "..")
unfolding after_last
after_last-append [] = refl
after_last-append (x ∷ front) = rw (after_last-append front) refl

-- A path that ends with `/..` is never deleted, whatever stands in front of it.
can_delete_path-parent : (front : Bytes) → can_delete_path (front ++ codes "/..") ≡ false
unfolding can_delete_path last_component
can_delete_path-parent front = rw (after_last-append front) refl
