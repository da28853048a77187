-- ===== src/Prelude/Words.antt =====
-- Bytes, C strings and the widths of the machine's integers.
use Prim.Native.Nat.{ℕ}
use Prim.Native.Char.{code}
use Prim.Native.String.{String}
use mathlib.Core.List.{List, [], ◌∷◌}
use kscrash.Prelude.Tests.{◌==◌, if◌then◌else◌}

-- A run of `char`s in memory, each as its `unsigned char`.
abbrev pub Bytes : Type 0
Bytes = List ℕ

-- The bytes of an ASCII literal.
abbrev pub codes : String → Bytes
codes String.[] = []
codes (String.◌∷◌ c s) = code c ∷ codes s

-- What a reader of a C string sees of the bytes in front of a terminating NUL.
abbrev pub c_string : Bytes → Bytes
c_string [] = []
c_string (c ∷ cs) = if c == 0 then [] else c ∷ c_string cs

-- ULLONG_MAX and LLONG_MAX.
abbrev pub uint64_max : ℕ
uint64_max = 18_446_744_073_709_551_615

abbrev pub int64_max : ℕ
int64_max = 9_223_372_036_854_775_807
