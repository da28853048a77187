-- ===== src/Json/Decode/Ends/Element.antt =====
-- `ksjson_decode` ends with a status on every input, for all callbacks.
use kscrash.Prelude.{
  ℕ, zero, suc, ◌+◌, ◌*◌, ◌/◌, ◌-◌, ◌≤◌, ◌<◌, ◌≡◌, refl, inl, inr, true, false, [], ◌∷◌, Option,
  none, some, Bytes, arith, ◌==◌, ltb, length, drop, length-drop, Bool-cases, if-both, codes,
  c_string,
}
use kscrash.Json.Encode.Number.{DoubleOps}
use kscrash.Json.Decode.Callbacks.{Beyond, Callbacks}
use kscrash.Json.Decode.Text.{decode_string}
use kscrash.Json.Decode.Number.{Number, is_digit, decode_unsigned, decode_negative}
use kscrash.Json.Decode.Element.{
  Outcome, more, stop, out_of_fuel, called, skip_whitespace, skip_comma, enough_fuel,
  decode_literal, decode_at, decode_front, array_round, object_value, object_round, decode_element,
  array_loop, object_loop, finish, decode, on_number, starts_with,
}
use kscrash.Json.Decode.Ends.{
  Ends, Ends-mono, called-Ends, and_then-Ends, decoded-Ends, length-skip_whitespace,
  length-skip_comma, decode_string-Shortens, decode_unsigned-Shortens, decode_negative-Shortens,
}

module _ (ops : DoubleOps) (beyond : Beyond) {S : Type 0} (callbacks : Callbacks ops.Double S) where
  decode_literal-Ends :
      (letters cs : Bytes) (callback : S → ℕ × S) (s : S)
      → Ends (suc (length cs)) (decode_literal ops beyond callbacks letters cs callback s)
  unfolding decode_literal
  decode_literal-Ends letters cs callback s =
      if-both (Ends (suc (length cs))) (ltb (length cs) (length letters)) tt (
        if-both (Ends (suc (length cs))) (starts_with letters cs)
          (called-Ends (suc (length cs)) (callback s) (drop (length letters) cs)
            (omega (arith, length-drop (length letters) cs)))
          tt)

  module _ (names strings : ℕ) where
    decode_at-Ends :
        (array object : Bytes → S → Outcome S) (name : Option Bytes) (c : ℕ) (cs : Bytes) (s : S)
        → ((rest : Bytes) (s : S)
            → length rest < suc (length cs)
            → Ends (suc (length cs)) (array rest s))
        → ((rest : Bytes) (s : S)
            → length rest < suc (length cs)
            → Ends (suc (length cs)) (object rest s))
        → Ends
            (suc (length cs))
            (decode_at ops beyond callbacks names strings array object name c cs s)
    unfolding decode_at
    decode_at-Ends array object name c cs s arrays objects =
        if-both Fine (c == b'[')
          (and_then-Ends n n (called (callbacks.on_begin_array name s) cs) array
            (called-Ends n (callbacks.on_begin_array name s) cs (omega arith)) arrays)
          (if-both Fine (c == b'{')
            (and_then-Ends n n (called (callbacks.on_begin_object name s) cs) object
              (called-Ends n (callbacks.on_begin_object name s) cs (omega arith)) objects)
            (if-both Fine (c == b'"')
              (decoded-Ends n n (decode_string beyond strings (c ∷ cs)) s _
                (decode_string-Shortens beyond strings c cs)
                (λ bytes rest h.
                  called-Ends n (callbacks.on_string_element name (c_string bytes) s) rest h))
              (if-both Fine (c == b'f')
                (decode_literal-Ends (codes "alse") cs (callbacks.on_boolean_element name false) s)
                (if-both Fine (c == b't')
                  (decode_literal-Ends (codes "rue") cs (callbacks.on_boolean_element name true) s)
                  (if-both Fine (c == b'n')
                    (decode_literal-Ends (codes "ull") cs (callbacks.on_null_element name) s)
                    (if-both Fine (c == b'-')
                      (decoded-Ends n n (decode_negative ops beyond strings cs) s _
                        (decode_negative-Shortens ops beyond strings cs) number)
                      (elim (Bool-cases (is_digit c)) [
                        | inl digit ↦ rw digit (
                            decoded-Ends n n (decode_unsigned ops false strings (c ∷ cs)) s _
                              (decode_unsigned-Shortens ops false strings c cs digit) number)
                        | inr other ↦ rw other tt
                      ])))))))
      where
        n : ℕ
        n = suc (length cs)

        Fine : Outcome S → Type 0
        Fine = Ends n

        number :
            (v : Number ops.Double) (rest : Bytes)
            → length rest < n
            → Ends n (called (on_number ops beyond callbacks name v s) rest)
        number v rest h = called-Ends n (on_number ops beyond callbacks name v s) rest h

    -- What the rounds rely on of the calls that they make, on this much fuel.
    abbrev ElementEnds : ℕ → (Option Bytes → Bytes → S → Outcome S) → Type 0
    ElementEnds fuel element =
        (name : Option Bytes) (rest : Bytes) (s : S)
        → 2 * length rest + 2 ≤ fuel
        → Ends (length rest) (element name rest s)

    abbrev LoopEnds : ℕ → (Bytes → S → Outcome S) → Type 0
    LoopEnds fuel loop =
        (rest : Bytes) (s : S) → 2 * length rest + 3 ≤ fuel → Ends (suc (length rest)) (loop rest s)

    module _ (fuel : ℕ) (element : Option Bytes → Bytes → S → Outcome S)
        (again : Bytes → S → Outcome S) (elements : ElementEnds fuel element)
        (loops : LoopEnds fuel again) where
      again-Ends :
          (n : ℕ) (rest : Bytes) (s : S)
          → length rest ≤ n
          → 2 * n + 3 ≤ fuel
          → Ends (suc n) (again (skip_comma (skip_whitespace rest)) s)
      again-Ends n rest s h k =
          let left = skip_comma (skip_whitespace rest) in
          let short : length left ≤ n =
            omega
              (arith, length-skip_comma (skip_whitespace rest), length-skip_whitespace rest, h) in
          Ends-mono (suc (length left)) (suc n) (again left s) (omega (arith, short))
            (loops left s (omega (arith, short, k)))

      array_round-Ends :
          (n : ℕ) (rest : Bytes) (s : S)
          → length rest ≤ n
          → 2 * n + 2 ≤ fuel
          → Ends (suc n) (array_round ops beyond callbacks names strings element again rest s)
      array_round-Ends n [] s h k = tt
      array_round-Ends n (c ∷ cs) s h k =
          if-both (Ends (suc n)) (c == b']')
            (called-Ends (suc n) (callbacks.on_end_container s) cs (omega (arith, h)))
            (and_then-Ends (suc (length cs)) (suc n) (element none (c ∷ cs) s) _
              (elements none (c ∷ cs) s (omega (arith, h, k)))
              (λ rest s' short.
                Ends-mono (suc (length cs)) (suc n) (again (skip_comma (skip_whitespace rest)) s')
                  (omega (arith, h))
                  (again-Ends (length cs) rest s' (omega (arith, short)) (omega (arith, h, k)))))

      object_value-Ends :
          (n : ℕ) (name rest : Bytes) (s : S)
          → length rest ≤ n
          → 2 * n + 2 ≤ fuel
          → Ends (suc n) (object_value ops beyond callbacks names strings element again name rest s)
      object_value-Ends n name [] s h k = tt
      object_value-Ends n name (c ∷ cs) s h k =
          let value = skip_whitespace cs in
          if-both (Ends (suc n)) (c == b':')
            (and_then-Ends (length value) (suc n) (element (some name) value s) _
              (elements (some name) value s (omega (arith, length-skip_whitespace cs, h, k)))
              (λ rest s' short.
                Ends-mono (suc (length cs)) (suc n) (again (skip_comma (skip_whitespace rest)) s')
                  (omega (arith, h))
                  (again-Ends (length cs) rest s' (omega (arith, short, length-skip_whitespace cs))
                    (omega (arith, h, k)))))
            tt

      object_round-Ends :
          (n : ℕ) (rest : Bytes) (s : S)
          → length rest ≤ n
          → 2 * n + 2 ≤ fuel
          → Ends (suc n) (object_round ops beyond callbacks names strings element again rest s)
      object_round-Ends n [] s h k = tt
      object_round-Ends n (c ∷ cs) s h k =
          if-both (Ends (suc n)) (c == b'}')
            (called-Ends (suc n) (callbacks.on_end_container s) cs (omega (arith, h)))
            (decoded-Ends (suc (length cs)) (suc n) (decode_string beyond names (c ∷ cs)) s _
              (decode_string-Shortens beyond names c cs)
              (λ name rest short.
                object_value-Ends n (c_string name) (skip_whitespace rest) s
                  (omega (arith, length-skip_whitespace rest, short, h)) k))

    front-Ends :
        (array object : Bytes → S → Outcome S) (name : Option Bytes) (rest : Bytes) (s : S)
        (n fuel : ℕ)
        → length rest ≤ n
        → 2 * n + 2 ≤ suc fuel
        → LoopEnds fuel array
        → LoopEnds fuel object
        → Ends n (decode_front ops beyond callbacks names strings array object name rest s)
    front-Ends array object name [] s n fuel h k arrays objects = tt
    front-Ends array object name (c ∷ cs) s n fuel h k arrays objects =
        Ends-mono (suc (length cs)) n
          (decode_at ops beyond callbacks names strings array object name c cs s) h
          (decode_at-Ends array object name c cs s (inside array arrays) (inside object objects))
      where
        inside :
            (loop : Bytes → S → Outcome S)
            → LoopEnds fuel loop
            → (rest : Bytes) (s : S) → length rest < suc (length cs)
            → Ends (suc (length cs)) (loop rest s)
        inside loop loops rest s short =
            Ends-mono (suc (length rest)) (suc (length cs)) (loop rest s) short
              (loops rest s (omega (arith, short, h, k)))

    mutual
      unfolding decode_element

      element-Ends :
          (fuel : ℕ) → ElementEnds fuel (decode_element ops beyond callbacks names strings fuel)
      element-Ends zero name rest s h = absurd (omega (arith, h))
      element-Ends (suc fuel) name rest s h =
          front-Ends (array_loop ops beyond callbacks names strings fuel)
            (object_loop ops beyond callbacks names strings fuel) name (skip_whitespace rest) s
            (length rest) fuel (length-skip_whitespace rest) h (array_loop-Ends fuel)
            (object_loop-Ends fuel)

      array_loop-Ends :
          (fuel : ℕ) → LoopEnds fuel (array_loop ops beyond callbacks names strings fuel)
      array_loop-Ends zero rest s h = absurd (omega (arith, h))
      array_loop-Ends (suc fuel) rest s h =
          array_round-Ends fuel (decode_element ops beyond callbacks names strings fuel)
            (array_loop ops beyond callbacks names strings fuel) (element-Ends fuel)
            (array_loop-Ends fuel) (length rest) (skip_whitespace rest) s
            (length-skip_whitespace rest) (omega (arith, h))

      object_loop-Ends :
          (fuel : ℕ) → LoopEnds fuel (object_loop ops beyond callbacks names strings fuel)
      object_loop-Ends zero rest s h = absurd (omega (arith, h))
      object_loop-Ends (suc fuel) rest s h =
          object_round-Ends fuel (decode_element ops beyond callbacks names strings fuel)
            (object_loop ops beyond callbacks names strings fuel) (element-Ends fuel)
            (object_loop-Ends fuel) (length rest) (skip_whitespace rest) s
            (length-skip_whitespace rest) (omega (arith, h))

  finish-returns :
      (n : ℕ) (o : Outcome S)
      → Ends n o
      → (status : ℕ) × (s : S) × (finish ops beyond callbacks o ≡ some (status, s))
  finish-returns n (more rest s) h =
      ((callbacks.on_end_data s).0, (callbacks.on_end_data s).1, refl)
  finish-returns n (stop r s) h = (r, s, refl)
  finish-returns n out_of_fuel h = absurd h

  -- `ksjson_decode` returns a status on every input, well-formed or not, for all callbacks and
  -- any size of the buffer: the fuel of the model is never used up.
  pub decode-returns :
      (input : Bytes) (string_buffer_length : ℕ) (s : S)
      → (status : ℕ) × (s' : S) × (decode ops beyond callbacks input string_buffer_length s
          ≡ some (status, s'))
  unfolding decode
  decode-returns input len s =
      finish-returns (length input)
        (decode_element ops beyond callbacks (len / 4) (len - len / 4) (enough_fuel input) none
          input s)
        (element-Ends (len / 4) (len - len / 4) (enough_fuel input) none input s (omega arith))
