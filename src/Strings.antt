-- ===== src/Strings.antt =====
-- KSString.c.
pub mod Hex
pub mod Utf8
use kscrash.Prelude.{Option, none, some, ℤ, pos, negsuc, Bytes}

-- `ksstring_safeStrcmp`; `strcmp` is a parameter, and NULL is `none`.
unfoldable pub safe_strcmp : (Bytes → Bytes → ℤ) → Option Bytes → Option Bytes → ℤ
safe_strcmp strcmp none none = pos 0
safe_strcmp strcmp none (some b) = negsuc 0
safe_strcmp strcmp (some a) none = pos 1
safe_strcmp strcmp (some a) (some b) = strcmp a b
