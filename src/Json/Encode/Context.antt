-- ===== src/Json/Encode/Context.antt =====
-- `KSJSONEncodeContext`, and the chaining of calls that return a status.
use kscrash.Prelude.{ℕ, ◌≡◌, Bool, Bytes, ◌==◌, ltb, if◌then◌else◌}
use kscrash.Json.Codes.{ksjson_ok}

-- `user_data` stands for what the `addJSONData` callback works on through its pointer.
-- `container_level` is an `int` that is never below 0.
pub record EncodeContext (S : Type 0) : Type 0 where
  pub user_data : S
  pub container_level : ℕ
  pub is_object : ℕ → Bool
  pub container_first_entry : Bool
  pub pretty_print : Bool

-- The length of the array `isObject`.
abbrev pub max_depth : ℕ
max_depth = 200

-- A write to `isObject[i]`. Past the end of the array the C is undefined; here nothing changes.
abbrev pub set_is_object : (ℕ → Bool) → ℕ → Bool → ℕ → Bool
set_is_object f i v j = if ltb i max_depth then if j == i then v else f j else f j

-- A call on the context: its status, and the context after it.
abbrev pub Call : Type 0 → Type 0
Call S = EncodeContext S → ℕ × EncodeContext S

-- `result = p; if (result != KSJSON_OK) { return result; } return q;`
infixl 5 ◌>>◌
abbrev pub ◌>>◌ : {S : Type 0} → Call S → Call S → Call S
◌>>◌ p q c = let (r, c') = p c in if r == ksjson_ok then q c' else (r, c')

pub chain :
    {S : Type 0} (p q : Call S) (c : EncodeContext S) {c' : EncodeContext S}
    {r : ℕ × EncodeContext S}
    → p c ≡ (ksjson_ok, c')
    → q c' ≡ r
    → (p >> q) c ≡ r
chain p q c h k = rw h k

-- The `addJSONData` callback.
abbrev pub Sink : Type 0 → Type 0
Sink S = Bytes → S → ℕ × S

-- The macro `addJSONData`.
abbrev pub add_json_data : {S : Type 0} → Sink S → Bytes → Call S
add_json_data sink bytes c = let (r, s) = sink bytes c.user_data in (r, record c { user_data = s })
