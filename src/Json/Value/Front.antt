-- ===== src/Json/Value/Front.antt =====
-- What the encoder puts in front of an element, and how the effects of its calls add up.
use kscrash.Prelude.{
  ℕ, zero, suc, ◌≤◌, ◌≡◌, refl, sym, ap, ◌∙◌, subst, Bool, true, false, ◌&&◌, [], ◌∷◌, ◌++◌,
  append-nil, append_assoc, Option, none, some, Bytes, codes, arith, ltb, lt→ltb, Bool-cases, inl,
  inr, if◌then◌else◌,
}
use kscrash.Json.Codes.{ksjson_ok}
use kscrash.Json.Encode.Context.{EncodeContext, Call, ◌>>◌, chain, add_json_data}
use kscrash.Json.Encode.Text.{add_quoted_escaped_string}
use kscrash.Json.Encode.Escape.{all_encodable, gather, gathered, add_quoted_escaped_string-gather}
use kscrash.Json.Encode.Element.{when, add_indent, add_comma, add_line, add_name, begin_element}
use kscrash.Json.Value.{quoted, indent, comma, line, colon}

abbrev pub context : Bytes → ℕ → (ℕ → Bool) → Bool → Bool → EncodeContext Bytes
context out level is_object first pretty = record {
  user_data = out;
  container_level = level;
  is_object = is_object;
  container_first_entry = first;
  pretty_print = pretty;
}

add_indent-gather :
    (n : ℕ) (c : EncodeContext Bytes) → add_indent gather n c ≡ (ksjson_ok, gathered (indent n) c)
unfolding add_indent
add_indent-gather zero c = rw append-nil
add_indent-gather (suc n) c =
    add_indent-gather n (gathered (codes "    ") c)
    ∙ ap (λ (out : Bytes). (ksjson_ok, record c { user_data = out }))
        (append_assoc c.user_data (codes "    ") (indent n))

pub add_line-gather :
    (c : EncodeContext Bytes)
    → add_line gather c ≡ (ksjson_ok, gathered (b'\n' ∷ indent c.container_level) c)
unfolding add_line
add_line-gather c =
    add_indent-gather c.container_level (gathered (b'\n' ∷ []) c)
    ∙ ap (λ (out : Bytes). (ksjson_ok, record c { user_data = out }))
        (append_assoc c.user_data (b'\n' ∷ []) (indent c.container_level))

-- What stands in front of an element: a comma, a new line inside a container, and the name
-- inside an object.
abbrev pub name_text : Bool → Bool → Option Bytes → Bytes
name_text pretty object none = []
name_text pretty object (some name) = if object then quoted name ++ colon pretty else []

abbrev pub line_inside : Bool → ℕ → Bytes
line_inside pretty zero = []
line_inside pretty (suc level) = line pretty (suc level)

abbrev pub front : Bool → Bool → ℕ → Bool → Option Bytes → Bytes
front pretty first level object name =
    (comma first ++ line_inside pretty level) ++ name_text pretty object name

-- An object's element has a name that can be written; any other has none, or one that is ignored.
abbrev pub IsNamed : Bool → Option Bytes → Type 0
IsNamed object none = object ≡ false
IsNamed object (some name) = all_encodable name ≡ true

add_comma-gather :
    (out : Bytes) (level : ℕ) (is_object : ℕ → Bool) (first pretty : Bool)
    → add_comma gather (context out level is_object first pretty)
      ≡ (ksjson_ok, context (out ++ comma first) level is_object false pretty)
unfolding add_comma
add_comma-gather out level is_object true pretty = rw append-nil
add_comma-gather out level is_object false pretty = refl

add_name-gather :
    (name : Option Bytes) (out : Bytes) (level : ℕ) (is_object : ℕ → Bool) (pretty : Bool)
    → IsNamed (is_object level) name
    → add_name gather name (context out level is_object false pretty) ≡ (
      ksjson_ok,
      context (out ++ name_text pretty (is_object level) name) level is_object false pretty,
    )
unfolding add_name
add_name-gather none out level is_object pretty h = rw (h, append-nil)
add_name-gather (some name) out level is_object pretty h = elim (Bool-cases (is_object level)) [
  | inl inside ↦ rw inside (
      chain (add_quoted_escaped_string gather name) (add_json_data gather (colon pretty))
        (context out level is_object false pretty)
        (add_quoted_escaped_string-gather name (context out level is_object false pretty) h)
        (ap (λ (t : Bytes). (ksjson_ok, context t level is_object false pretty))
          (append_assoc out (quoted name) (colon pretty))))
  | inr outside ↦ rw (outside, append-nil)
]

-- The call, begun at `level` with this context, succeeds and appends the text. It ends at
-- `level'`, and no level up to there is changed by it.
abbrev pub Writes : Call Bytes → Bytes → ℕ → ℕ → (ℕ → Bool) → Bool → Bool → Type 0
Writes p text level level' is_object first pretty =
    (out : Bytes)
    → (is_object' : ℕ → Bool) × (p (context out level is_object first pretty)
        ≡ (ksjson_ok, context (out ++ text) level' is_object' false pretty))
      × ((j : ℕ) → j ≤ level' → is_object' j ≡ is_object j)

pub Writes-chain :
    (p q : Call Bytes) (t u : Bytes) (level level' : ℕ) (is_object : ℕ → Bool) (first pretty : Bool)
    → level' ≤ level
    → Writes p t level level is_object first pretty
    → ((is_object' : ℕ → Bool)
        → ((j : ℕ) → j ≤ level → is_object' j ≡ is_object j)
        → Writes q u level level' is_object' false pretty)
    → Writes (p >> q) (t ++ u) level level' is_object first pretty
Writes-chain p q t u level level' is_object first pretty h wp wq out =
    let (mid, ran, same) = wp out in
    let (last, ran', same') = wq mid same (out ++ t) in
    (
      last,
      chain p q (context out level is_object first pretty) ran ran'
          ∙ ap (λ (t : Bytes). (ksjson_ok, context t level' last false pretty))
              (append_assoc out t u),
      λ j k. same' j k ∙ same j (omega arith),
    )

-- A text that is handed over at once.
pub Writes-text :
    (text : Bytes) (level : ℕ) (is_object : ℕ → Bool) (pretty : Bool)
    → Writes (add_json_data gather text) text level level is_object false pretty
Writes-text text level is_object pretty out = (is_object, refl, λ j k. refl)

newline-Writes :
    (level : ℕ) (is_object : ℕ → Bool) (pretty : Bool)
    → Writes
        (when (pretty && ltb 0 level) (add_line gather))
        (line_inside pretty level)
        level
        level
        is_object
        false
        pretty
newline-Writes zero is_object true out = (is_object, rw append-nil, λ j k. refl)
newline-Writes zero is_object false out = (is_object, rw append-nil, λ j k. refl)
newline-Writes (suc level) is_object true out = (
  is_object,
  rw (lt→ltb 0 (suc level) (omega arith))
      (add_line-gather (context out (suc level) is_object false true)),
  λ j k. refl,
)
newline-Writes (suc level) is_object false out = (is_object, rw append-nil, λ j k. refl)

pub begin_element-Writes :
    (name : Option Bytes) (level : ℕ) (is_object : ℕ → Bool) (first pretty : Bool)
    → IsNamed (is_object level) name
    → Writes
        (begin_element gather name)
        (front pretty first level (is_object level) name)
        level
        level
        is_object
        first
        pretty
unfolding begin_element
begin_element-Writes name level is_object first pretty h out =
    Writes-chain (add_comma gather >> newline) (add_name gather name)
      (comma first ++ line_inside pretty level) (name_text pretty (is_object level) name) level
      level is_object first pretty (omega arith)
      (Writes-chain (add_comma gather) newline (comma first) (line_inside pretty level) level level
        is_object first pretty (omega arith)
        (λ out. (is_object, add_comma-gather out level is_object first pretty, λ j k. refl))
        (λ is_object' same. newline-Writes level is_object' pretty))
      (λ is_object' same out. (
        is_object',
        subst
            (λ (b : Bool).
              add_name gather name (context out level is_object' false pretty)
              ≡ (ksjson_ok, context (out ++ name_text pretty b name) level is_object' false pretty))
            (same level (omega arith))
            (add_name-gather name out level is_object' pretty
              (subst (λ (b : Bool). IsNamed b name) (sym (same level (omega arith))) h)),
        λ j k. refl,
      ))
      out
  where
    newline : Call Bytes
    newline = when (pretty && ltb 0 level) (add_line gather)
