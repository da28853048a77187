-- ===== src/Json/Splice/Forward.antt =====
-- Splicing the text of a document is writing the document.
use kscrash.Prelude.{
  ℕ, ◌≡◌, refl, sym, ap, ◌∙◌, inl, inr, Bool, true, List, [], ◌++◌, append-nil, append_assoc,
  Option, none, some, Bytes, arith, ◌==◌, Bool-cases,
}
use kscrash.Json.Codes.{ksjson_ok}
use kscrash.Json.Encode.Context.{EncodeContext, Sink, Call, ◌>>◌}
use kscrash.Json.Encode.Number.{DoubleOps}
use kscrash.Json.Encode.Element.{begin_array, begin_object}
use kscrash.Json.Decode.Callbacks.{Beyond}
use kscrash.Json.Decode.Element.{Outcome, more, stop, out_of_fuel, called, and_then}
use kscrash.Json.Event.{Event, replay}
use kscrash.Json.Value.{
  Value, Items, Fields, null, boolean, integer, unsigned, string, array, object, no_items, item,
  no_fields, field, events, item_events, field_events, add_value, add_items, add_fields, print,
  IsWritable, Fits,
}
use kscrash.Json.Value.RoundTrip.{IsContainer, container-Reads}
use kscrash.Json.Splice.{
  forward, close_all, spliced, add_json_element, name_buffer_size, string_buffer_size,
}

to_path : (a b : ℕ) → (a == b) ≡ true → a ≡ b
to_path a b h = ground arith

and_then-same :
    {S : Type 0} (o : Outcome S) (k k' : Bytes → S → Outcome S)
    → ((rest : Bytes) (s : S) → k rest s ≡ k' rest s)
    → and_then o k ≡ and_then o k'
and_then-same (more rest s) k k' same = same rest s
and_then-same (stop r s) k k' same = refl
and_then-same out_of_fuel k k' same = refl

called-then :
    {S : Type 0} (p q : Call S) (c : EncodeContext S) (rest : Bytes)
    (k : Bytes → EncodeContext S → Outcome (EncodeContext S))
    → and_then (called (p c) rest) (λ rest' s. and_then (called (q s) rest') k)
      ≡ and_then (called ((p >> q) c) rest) k
called-then p q c rest k = elim (Bool-cases ((p c).0 == ksjson_ok)) [
  | inl done ↦ rw done refl
  | inr failed ↦ rw (failed, failed) refl
]

module _ (ops : DoubleOps) {S : Type 0} (sink : Sink S) where
  abbrev Run : List (Event ops.Double) → Call S → Type 0
  Run es call =
      (later : List (Event ops.Double)) (rest : Bytes) (c : EncodeContext S)
      → replay (forward ops sink true) (es ++ later) rest c
        ≡ and_then (called (call c) rest) (λ rest' s. replay (forward ops sink true) later rest' s)

  mutual
    unfolding replay events add_value

    value-Run : (v : Value) (name : Option Bytes) → Run (events name v) (add_value sink name v)
    value-Run null name later rest c = refl
    value-Run (boolean b) name later rest c = refl
    value-Run (integer n) name later rest c = refl
    value-Run (unsigned n) name later rest c = refl
    value-Run (string s) name later rest c = refl
    value-Run (array xs) name later rest c =
        and_then-same (called (begin_array sink name c) rest) _ _ (items-Run xs later)
        ∙ called-then (begin_array sink name) (add_items sink xs) c rest _
    value-Run (object fs) name later rest c =
        and_then-same (called (begin_object sink name c) rest) _ _ (fields-Run fs later)
        ∙ called-then (begin_object sink name) (add_fields sink fs) c rest _

    items-Run : (xs : Items) → Run (item_events xs) (add_items sink xs)
    items-Run no_items later rest c = refl
    items-Run (item v xs) later rest c =
        ap (λ es. replay (forward ops sink true) es rest c)
          (append_assoc (events none v) (item_events xs) later)
        ∙ value-Run v none (item_events xs ++ later) rest c
        ∙ and_then-same (called (add_value sink none v c) rest) _ _ (items-Run xs later)
        ∙ called-then (add_value sink none v) (add_items sink xs) c rest _

    fields-Run : (fs : Fields) → Run (field_events fs) (add_fields sink fs)
    fields-Run no_fields later rest c = refl
    fields-Run (field name v fs) later rest c =
        ap (λ es. replay (forward ops sink true) es rest c)
          (append_assoc (events (some name) v) (field_events fs) later)
        ∙ value-Run v (some name) (field_events fs ++ later) rest c
        ∙ and_then-same (called (add_value sink (some name) v c) rest) _ _ (fields-Run fs later)
        ∙ called-then (add_value sink (some name) v) (add_fields sink fs) c rest _

  called-spliced :
      (level : ℕ) (r : ℕ) (c : EncodeContext S)
      → spliced ops sink true level
          (and_then (called (r, c) []) (λ rest' s. replay (forward ops sink true) [] rest' s))
        ≡ some (r, close_all ops sink true level c)
  unfolding replay
  called-spliced level r c = elim (Bool-cases (r == ksjson_ok)) [
    | inl done ↦
        rw done (
          ap (λ code. some (code, close_all ops sink true level c))
            (sym (to_path r ksjson_ok done)))
    | inr failed ↦ rw failed refl
  ]

  -- With `closeLastContainer`, `ksjson_addJSONElement` of the text of a document does to the
  -- encoder what the calls that write that document do, and then closes what they left open. This
  -- holds for any sink, any context and any error, if the document has the form that the encoder
  -- writes, and its strings fit the two buffers.
  pub add_json_element-print :
      (beyond : Beyond) (v : Value) (pretty : Bool) (name : Option Bytes) (c : EncodeContext S)
      → IsContainer v
      → IsWritable 0 v
      → Fits name_buffer_size string_buffer_size v
      → add_json_element ops sink beyond name (print pretty 0 v) true c ≡ (
          let (r, c') = add_value sink name v c in
          some (r, close_all ops sink true (c.container_level) c'))
  unfolding add_json_element
  add_json_element-print beyond v pretty name c i w f =
      ap (spliced ops sink true (c.container_level)) (
        container-Reads ops beyond (forward ops sink true) v pretty name_buffer_size
          string_buffer_size name c i w f
        ∙ ap (λ es. replay (forward ops sink true) es [] c) (sym (append-nil (events name v)))
        ∙ value-Run v name [] [] c)
      ∙ called-spliced (c.container_level) (add_value sink name v c).0 (add_value sink name v c).1
