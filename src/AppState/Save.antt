-- ===== src/AppState/Save.antt =====
-- The text that `saveState` puts into the state file.
use kscrash.Prelude.{
  ℕ, ◌≤◌, ◌≡◌, refl, ap, ◌∙◌, Bool, true, false, none, some, List, [], ◌∷◌, ◌++◌, ◌==◌,
  append_assoc, Bytes, codes, ℤ, pos, int64_max, arith, if◌then◌else◌,
}
use kscrash.Json.Codes.{ksjson_ok}
use kscrash.Json.Encode.Context.{EncodeContext, set_is_object, Call, ◌>>◌, chain, add_json_data}
use kscrash.Json.Encode.Number.{DoubleOps, format_double, signed_decimal, IsInt64}
use kscrash.Json.Encode.Escape.{gather, all_encodable}
use kscrash.Json.Encode.Element.{
  begin_encode, begin_object, begin_element, add_comma, add_name, end_encode, end_containers,
  end_container, add_line, add_indent, add_boolean_element, add_integer_element,
  add_floating_point_element, add_formatted_number,
}
use kscrash.Json.Event.{
  Event, boolean, floating, integer, begin_object as starts, end_container as ends,
}
use kscrash.Json.Value.Front.{context, front, Writes}
use kscrash.Json.Value.Write.{element-Writes, add_integer_element-Writes}
use kscrash.AppState.{Arithmetic, Storage, State}
use kscrash.Json.Decode.Callbacks.{Beyond}
use kscrash.AppState.Notify.{save_state}

-- A file that takes every write.
abbrev pub file : Storage Bytes
file = record {
  read_entire_file = λ kept. some kept;
  open_truncated = λ kept. (true, []);
  write = λ bytes kept. (true, kept ++ bytes);
}

-- A field on a line of its own, its name free of characters to escape.
abbrev pub field_text : Bool → Bytes → Bytes → Bytes
field_text first name text =
    ((if first then codes "\n    \"" else codes ",\n    \"") ++ name ++ codes "\": ") ++ text

-- The calls so far have gathered `out`, inside the object.
record SoFar (p : Call Bytes) (out : Bytes) (first : Bool) : Type 0 where
  levels : ℕ → Bool
  ran : p (begin_encode true []) ≡ (ksjson_ok, context out 1 levels first true)
  inside : levels 1 ≡ true

module _ (ops : DoubleOps) (math : Arithmetic ops.Double) where
  -- The text of an object of the state's kinds of field, behind `out`.
  abbrev pub object_text : Bytes → Bool → List (Event ops.Double) → Bytes
  object_text out first (starts none ∷ es) = object_text (out ++ codes "{") true es
  object_text out first (integer (some name) n ∷ es) =
      object_text (out ++ field_text first name (signed_decimal n)) false es
  object_text out first (boolean (some name) b ∷ es) =
      object_text (out ++ field_text first name (if b then codes "true" else codes "false")) false
        es
  object_text out first (floating (some name) d ∷ es) =
      object_text (out ++ field_text first name ((format_double ops d).1)) false es
  object_text out first (ends ∷ es) = object_text (out ++ codes "\n}") false es
  object_text out first _ = out

  -- The fields of a state file.
  abbrev pub saved_events : Bool → ops.Double → ops.Double → ℕ → ℕ → List (Event ops.Double)
  saved_events crashed active background launches sessions =
      starts none
      ∷ integer (some (codes "version")) (pos 1)
      ∷ boolean (some (codes "crashedLastLaunch")) crashed
      ∷ floating (some (codes "activeDurationSinceLastCrash")) active
      ∷ floating (some (codes "backgroundDurationSinceLastCrash")) background
      ∷ integer (some (codes "launchesSinceLastCrash")) (pos launches)
      ∷ integer (some (codes "sessionsSinceLastCrash")) (pos sessions)
      ∷ ends
      ∷ []

  SoFar-field :
      {p : Call Bytes} {out : Bytes} {first : Bool} (q : Call Bytes) (name text : Bytes)
      → SoFar p out first
      → front true first 1 true (some name) ++ text ≡ field_text first name text
      → ((o : ℕ → Bool) → Writes q (front true first 1 (o 1) (some name) ++ text) 1 1 o first true)
      → SoFar (p >> q) (out ++ field_text first name text) false
  SoFar-field {p} {out} {first} q name text so_far shape writes =
      let (o', ran', same) = writes so_far.levels out in
      record {
        levels = o';
        ran =
            chain p q (begin_encode true []) so_far.ran ran'
            ∙ ap (λ (t : Bytes). (ksjson_ok, context (out ++ t) 1 o' false true))
                (ap (λ (b : Bool). front true first 1 b (some name) ++ text) so_far.inside ∙ shape);
        inside = same 1 (omega arith) ∙ so_far.inside;
      }

  -- `formatDouble` succeeds.
  abbrev pub HasText : ops.Double → Type 0
  HasText d = format_double ops d ≡ (ksjson_ok, (format_double ops d).1)

  add_floating_point_element-Writes :
      (name : Bytes) (o : ℕ → Bool) (d : ops.Double)
      → all_encodable name ≡ true
      → HasText d
      → Writes
          (add_floating_point_element ops gather (some name) d)
          (front true false 1 (o 1) (some name) ++ (format_double ops d).1)
          1
          1
          o
          false
          true
  unfolding add_floating_point_element add_formatted_number
  add_floating_point_element-Writes name o d named h out = rw h (
      element-Writes (some name) 1 o false true named
        (add_json_data gather ((format_double ops d).1)) ((format_double ops d).1) (λ out o. refl)
        out)

  SoFar-integer :
      {p : Call Bytes} {out : Bytes} {first : Bool} (name : Bytes) (n : ℤ)
      → IsInt64 n
      → all_encodable name ≡ true
      → front true first 1 true (some name) ++ signed_decimal n
        ≡ field_text first name (signed_decimal n)
      → SoFar p out first
      → SoFar
          (p >> add_integer_element gather (some name) n)
          (out ++ field_text first name (signed_decimal n))
          false
  SoFar-integer {p} {out} {first} name n small named shape so_far =
      SoFar-field (add_integer_element gather (some name) n) name (signed_decimal n) so_far shape
        (λ o. add_integer_element-Writes (some name) 1 o first true named n small)

  SoFar-double :
      {p : Call Bytes} {out : Bytes} (name : Bytes) (d : ops.Double)
      → HasText d
      → all_encodable name ≡ true
      → front true false 1 true (some name) ++ (format_double ops d).1
        ≡ field_text false name ((format_double ops d).1)
      → SoFar p out false
      → SoFar
          (p >> add_floating_point_element ops gather (some name) d)
          (out ++ field_text false name ((format_double ops d).1))
          false
  SoFar-double name d text named shape so_far =
      SoFar-field (add_floating_point_element ops gather (some name) d) name
        ((format_double ops d).1) so_far shape
        (λ o. add_floating_point_element-Writes name o d named text)

  begun : SoFar (begin_object gather none) (codes "{") true
  unfolding begin_object begin_element add_comma add_name
  begun = record { levels = set_is_object (λ _. false) 1 true; ran = refl; inside = refl }

  end_encode-gather :
      (out : Bytes) (o : ℕ → Bool)
      → o 1 ≡ true
      → end_encode gather (context out 1 o false true)
        ≡ (ksjson_ok, context ((out ++ codes "\n") ++ codes "}") 0 o false true)
  unfolding end_encode end_containers end_container add_line add_indent
  end_encode-gather out o inside = rw inside refl

  abbrev closed : ℕ × EncodeContext Bytes → Bool × Bytes
  closed (result, c) = (result == ksjson_ok, c.user_data)

  -- Where a call that has gathered `out` by now leaves the file.
  gathered_file :
      {p : Call Bytes} {out : Bytes}
      → SoFar p out false
      → closed ((p >> end_encode gather) (begin_encode true [])) ≡ (true, out ++ codes "\n}")
  gathered_file {p} {out} so_far =
      ap closed (
        chain p (end_encode gather) (begin_encode true []) so_far.ran
          (end_encode-gather out so_far.levels so_far.inside))
      ∙ ap (λ (t : Bytes). (true, t)) (append_assoc out (codes "\n") (codes "}"))

  -- The durations of the state can be printed.
  abbrev pub HasTexts : State ops math → Type 0
  HasTexts s =
      HasText s.active_duration_since_last_crash × HasText s.background_duration_since_last_crash

  pub save_state-written :
      (beyond : Beyond) (s : State ops math) (launches sessions : ℕ) (kept : Bytes)
      → HasTexts s
      → s.launches_since_last_crash ≡ pos launches
      → s.sessions_since_last_crash ≡ pos sessions
      → launches ≤ int64_max
      → sessions ≤ int64_max
      → save_state ops math file beyond s kept ≡ (
        true,
        object_text [] true (
            saved_events s.crashed_this_launch s.active_duration_since_last_crash
              s.background_duration_since_last_crash launches sessions),
      )
  unfolding save_state add_boolean_element kscrash.Json.Encode.Escape.is_encodable
      kscrash.Json.Encode.Escape.escaped_char
  save_state-written beyond s launches sessions kept (active, background) l k small_l small_k =
      let crashed : Bytes = if s.crashed_this_launch then codes "true" else codes "false" in
      let name = codes "crashedLastLaunch" in
      let head =
        SoFar-field (add_boolean_element gather (some name) s.crashed_this_launch) name crashed
          (SoFar-integer (codes "version") (pos 1) (omega arith) refl refl begun) refl
          (λ o.
            element-Writes (some name) 1 o false true refl (add_json_data gather crashed) crashed
              (λ out o. refl)) in
      let durations =
        SoFar-double (codes "backgroundDurationSinceLastCrash")
          s.background_duration_since_last_crash background refl refl
          (SoFar-double (codes "activeDurationSinceLastCrash") s.active_duration_since_last_crash
            active refl refl head) in
      let counts = SoFar-integer (codes "sessionsSinceLastCrash") (pos sessions) small_k refl refl (
        SoFar-integer (codes "launchesSinceLastCrash") (pos launches) small_l refl refl
          durations) in
      rw (l, k) (gathered_file counts)
