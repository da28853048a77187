-- ===== src/Dwarf/Compile.antt =====
-- What an expression of the DWARF format means, as a tree, its code, and what
-- `evaluateDwarfExpression` makes of that code.
use kscrash.Prelude.{
  ℕ, suc, ◌+◌, ◌-◌, ◌%◌, ◌≤◌, ◌<◌, ◌≡◌, refl, ap, ◌∙◌, subst, false, ◌&&◌, ◌||◌, Option, none, some,
  List, [], ◌∷◌, ◌++◌, length, length-append, arith, ◌==◌, ltb, leb, if◌then◌else◌, if-cases,
}
use kscrash.Dwarf.Reader.{word_mod, wrap, Memory, Reader, reader_at, has_data, read_sleb128}
use kscrash.Dwarf.Registers.{Arch, Frame, get_register_value}
use kscrash.Dwarf.Leb.{
  Holds, encode_uleb128, read_uleb128-encode, read_sleb128-byte, seven_bits, skip, Holds-append,
  read_byte,
}
use kscrash.Dwarf.Expression.{
  Machine, Evaluated, evaluated, failed, evaluate_dwarf_expression, expr_stack_max, expr_push,
  with_stack, push, push_option, push_sum, push_constant, push_read, binary, run, run_on, operate,
}

-- Sums and differences of 64-bit words.
abbrev plus : ℕ → ℕ → ℕ
plus a b = (a + b) % word_mod

abbrev minus : ℕ → ℕ → ℕ
minus a b = (a + (word_mod - b)) % word_mod

-- An offset from a register is written in one byte here.
pub data Expr : Type 0 where
  literal : ℕ → Expr
  constant : ℕ → Expr
  frame_address : Expr
  based : ℕ → ℕ → Expr
  sum : Expr → Expr → Expr
  difference : Expr → Expr → Expr
  displaced : Expr → ℕ → Expr
  load : Expr → Expr

-- The operands are in the ranges of their encodings.
abbrev pub Fits : Expr → Type 0
Fits (literal n) = n < 32
Fits (constant n) = n < word_mod
Fits frame_address = Unit
Fits (based reg offset) = (reg < 32) × (offset < 128)
Fits (sum a b) = Fits a × Fits b
Fits (difference a b) = Fits a × Fits b
Fits (displaced a n) = Fits a × (n < word_mod)
Fits (load a) = Fits a

unfoldable pub code : Expr → List ℕ
code (literal n) = (0x30 + n) ∷ []
code (constant n) = 0x10 ∷ encode_uleb128 10 n
code frame_address = 0x9C ∷ []
code (based reg offset) = (0x70 + reg) ∷ offset ∷ []
code (sum a b) = code a ++ (code b ++ (0x22 ∷ []))
code (difference a b) = code a ++ (code b ++ (0x1C ∷ []))
code (displaced a n) = code a ++ (0x23 ∷ encode_uleb128 10 n)
code (load a) = code a ++ (0x06 ∷ [])

-- The operations of the code, and the slots of the stack that they take.
unfoldable pub operations : Expr → ℕ
operations (sum a b) = operations a + (operations b + 1)
operations (difference a b) = operations a + (operations b + 1)
operations (displaced a n) = operations a + 1
operations (load a) = operations a + 1
operations (literal n) = 1
operations (constant n) = 1
operations frame_address = 1
operations (based reg offset) = 1

abbrev max : ℕ → ℕ → ℕ
max a b = if ltb a b then b else a

unfoldable pub slots : Expr → ℕ
slots (sum a b) = max (slots a) (suc (slots b))
slots (difference a b) = max (slots a) (suc (slots b))
slots (displaced a n) = slots a
slots (load a) = slots a
slots (literal n) = 1
slots (constant n) = 1
slots frame_address = 1
slots (based reg offset) = 1

abbrev pub map_option : (ℕ → ℕ) → Option ℕ → Option ℕ
map_option f none = none
map_option f (some a) = some (f a)

abbrev pub map_both : (ℕ → ℕ → ℕ) → Option ℕ → Option ℕ → Option ℕ
map_both f none b = none
map_both f (some a) b = map_option (f a) b

abbrev pub at_address : (ℕ → Option ℕ) → Option ℕ → Option ℕ
at_address f none = none
at_address f (some a) = f a

module _ (memory : Memory) (arch : Arch) (cfa : ℕ) (frame : Frame) where
  -- What the tree means: sums and differences of 64-bit words, the words in memory and the known
  -- registers of the frame.
  unfoldable pub denote : Expr → Option ℕ
  denote (literal n) = some n
  denote (constant n) = some n
  denote frame_address = if cfa == 0 then none else some cfa
  denote (based reg offset) =
      map_option (λ value. plus value (seven_bits offset)) (get_register_value arch frame reg)
  denote (sum a b) = map_both plus (denote a) (denote b)
  denote (difference a b) = map_both minus (denote a) (denote b)
  denote (displaced a n) = at_address (λ value. some (plus value n)) (denote a)
  denote (load a) = at_address (memory.safe_word) (denote a)

  -- The machine with a value on the stack, behind the code of that value.
  abbrev with_value : ℕ → ℕ → Machine → Machine
  with_value n value m = record m { reader = skip n (m.reader); stack = value ∷ m.stack }

  -- How a run goes on from a meaning.
  abbrev resume : ℕ → ℕ → Machine → Option ℕ → Evaluated
  resume k n m none = failed
  resume k n m (some value) = run memory arch cfa frame k (with_value n value m)

  -- One round, of an operation that stands in memory.
  round :
      (k op : ℕ) (m : Machine)
      → memory.byte (m.reader.position) ≡ op
      → m.reader.position + 1 ≤ m.reader.limit
      → run memory arch cfa frame (suc k) m
        ≡ run_on memory arch cfa frame
            (run memory arch cfa frame k)
            (operate memory arch cfa frame op (record m { reader = skip 1 (m.reader) }))
  unfolding run
  round k op m holds fits =
      if-cases Fine (has_data (m.reader) 1)
        (λ yes.
          ap after (read_byte memory (m.reader) fits)
          ∙ ap (λ o. after (o, skip 1 (m.reader))) holds)
        (λ no. absurd (ground (arith, no, fits)))
    where
      after : ℕ × Reader → Evaluated
      after x =
          run_on memory arch cfa frame (run memory arch cfa frame k)
            (operate memory arch cfa frame (x.0) (record m { reader = x.1 }))

      Fine : Evaluated → Type 0
      Fine e = e ≡ after (op, skip 1 (m.reader))

  push_room :
      (m : Machine) (value : ℕ)
      → length (m.stack) < expr_stack_max
      → push m value ≡ some (record m { stack = value ∷ m.stack })
  unfolding expr_push
  push_room m value h =
      if-cases (λ x. with_stack m x ≡ some (record m { stack = value ∷ m.stack }))
        (leb expr_stack_max (length (m.stack))) (λ full. absurd (ground (arith, full, h)))
        (λ room. refl)

  -- The bytes have the meaning, in any memory that holds them and on any stack with the room.
  abbrev Runs : List ℕ → ℕ → ℕ → Option ℕ → Type 0
  Runs bytes count room meaning =
      (k : ℕ) (m : Machine)
      → length (m.stack) + room ≤ expr_stack_max
      → Holds memory (m.reader.position) bytes
      → m.reader.position + length bytes ≤ m.reader.limit
      → run memory arch cfa frame (count + k) m ≡ resume k (length bytes) m meaning

  run_fuel :
      (m : Machine) (i j : ℕ)
      → i ≡ j
      → run memory arch cfa frame i m ≡ run memory arch cfa frame j m
  run_fuel m i j h = ap (λ n. run memory arch cfa frame n m) h

  -- The end of a run at two ways to count the bytes.
  resume_length :
      (k i j : ℕ) (m : Machine) (meaning : Option ℕ)
      → i ≡ j
      → resume k i m meaning ≡ resume k j m meaning
  resume_length k i j m meaning h = ap (λ n. resume k n m meaning) h

  literal_code : (n : ℕ) → n < 32 → Runs ((0x30 + n) ∷ []) 1 1 (some n)
  unfolding operate
  literal_code n small k m room holds fits =
      run_fuel m (1 + k) (suc k) (omega arith)
      ∙ round k (0x30 + n) m (holds.0) (omega (arith, fits))
      ∙ ap (run_on memory arch cfa frame (run memory arch cfa frame k)) (
          if-cases (λ x. x ≡ some (with_value 1 n m)) (leb 0x30 (0x30 + n) && leb (0x30 + n) 0x4F)
            (λ yes. ap (push m1) (omega arith) ∙ push_room m1 n (omega (arith, room)))
            (λ no. absurd (ground (arith, no, small))))
    where
      m1 : Machine
      m1 = record m { reader = skip 1 (m.reader) }

  constant_code : (n : ℕ) → n < word_mod → Runs (0x10 ∷ encode_uleb128 10 n) 1 1 (some n)
  unfolding operate push_constant
  constant_code n small k m room holds fits =
      run_fuel m (1 + k) (suc k) (omega arith)
      ∙ round k 0x10 m (holds.0) (omega (arith, fits))
      ∙ ap (run_on memory arch cfa frame (run memory arch cfa frame k)) (
          ap (push_read m1)
            (read_uleb128-encode memory n (skip 1 (m.reader)) small holds' (omega (arith, fits)))
          ∙ push_room
              (record m1 { reader = skip (length (encode_uleb128 10 n)) (skip 1 (m.reader)) }) n
              (omega (arith, room)))
      ∙ ap
          (λ p.
            run memory arch cfa frame k
              (record m { reader = record (m.reader) { position = p }; stack = n ∷ m.stack }))
          (omega arith)
    where
      m1 : Machine
      m1 = record m { reader = skip 1 (m.reader) }

      holds' : Holds memory (m.reader.position + 1) (encode_uleb128 10 n)
      holds' = subst (λ p. Holds memory p (encode_uleb128 10 n)) (omega arith) (holds.1)

  resume_skip :
      (k i n : ℕ) (m : Machine) (meaning : Option ℕ)
      → resume k n (record m { reader = skip i (m.reader) }) meaning ≡ resume k (i + n) m meaning
  resume_skip k i n m none = refl
  resume_skip k i n m (some v) =
      ap
        (λ p.
          run memory arch cfa frame k
            (record m { reader = record (m.reader) { position = p }; stack = v ∷ m.stack }))
        (omega arith)

  -- The code of a second operand and of the operation, where the first is on the stack.
  second_operand :
      (op : ℕ) (f : ℕ → ℕ → ℕ)
      → ((m : Machine) → operate memory arch cfa frame op m ≡ binary f m)
      → (ys : List ℕ) (j t a : ℕ) (b : Option ℕ) → Runs ys j t b
      → (k : ℕ) (m : Machine) → length (m.stack) + suc t ≤ expr_stack_max
      → Holds memory (m.reader.position) (ys ++ (op ∷ []))
      → m.reader.position + length (ys ++ (op ∷ [])) ≤ m.reader.limit
      → run memory arch cfa frame (j + suc k) (record m { stack = a ∷ m.stack })
        ≡ resume k (length (ys ++ (op ∷ []))) m (map_option (f a) b)
  second_operand op f means ys j t a none second k m room holds fits =
      second (suc k) (record m { stack = a ∷ m.stack }) (omega (arith, room))
        ((Holds-append memory (m.reader.position) ys (op ∷ []) holds).0)
        (omega (arith, fits, length-append ys (op ∷ [])))
  second_operand op f means ys j t a (some b) second k m room holds fits =
      let long = length-append ys (op ∷ []) in
      let parts = Holds-append memory (m.reader.position) ys (op ∷ []) holds in
      let m2 = record m { reader = skip (length ys) (m.reader); stack = b ∷ a ∷ m.stack } in
      let m3 = record m { reader = skip 1 (skip (length ys) (m.reader)) } in
      second (suc k) (record m { stack = a ∷ m.stack }) (omega (arith, room)) (parts.0)
        (omega (arith, fits, long))
      ∙ round k op m2 (parts.1.0) (omega (arith, fits, long))
      ∙ ap (run_on memory arch cfa frame (run memory arch cfa frame k)) (
          means (record m2 { reader = skip 1 (m2.reader) })
          ∙ push_room m3 (f a b) (omega (arith, room)))
      ∙ ap
          (λ p.
            run memory arch cfa frame k
              (record m { reader = record (m.reader) { position = p }; stack = f a b ∷ m.stack }))
          (omega (arith, long))

  operands :
      (op : ℕ) (f : ℕ → ℕ → ℕ)
      → ((m : Machine) → operate memory arch cfa frame op m ≡ binary f m)
      → (xs ys : List ℕ) (j t : ℕ) (a b : Option ℕ) → Runs ys j t b
      → (k : ℕ) (m : Machine) → length (m.stack) + suc t ≤ expr_stack_max
      → Holds memory (m.reader.position + length xs) (ys ++ (op ∷ []))
      → m.reader.position + length xs + length (ys ++ (op ∷ [])) ≤ m.reader.limit
      → resume (j + suc k) (length xs) m a
        ≡ resume k (length xs + length (ys ++ (op ∷ []))) m (map_both f a b)
  operands op f means xs ys j t none b second k m room holds fits = refl
  operands op f means xs ys j t (some a) b second k m room holds fits =
      second_operand op f means ys j t a b second k
        (record m { reader = skip (length xs) (m.reader) }) room holds fits
      ∙ resume_skip k (length xs) (length (ys ++ (op ∷ []))) m (map_option (f a) b)

  binary_code :
      (op : ℕ) (f : ℕ → ℕ → ℕ)
      → ((m : Machine) → operate memory arch cfa frame op m ≡ binary f m)
      → (xs ys : List ℕ) (i j s t : ℕ) (a b : Option ℕ) → Runs xs i s a
      → Runs ys j t b
      → Runs (xs ++ (ys ++ (op ∷ []))) (i + (j + 1)) (max s (suc t)) (map_both f a b)
  binary_code op f means xs ys i j s t a b first second k m room holds fits =
      let long = length-append xs (ys ++ (op ∷ [])) in
      let long' = length-append ys (op ∷ []) in
      let parts = Holds-append memory (m.reader.position) xs (ys ++ (op ∷ [])) holds in
      run_fuel m (i + (j + 1) + k) (i + (j + suc k)) (omega arith)
      ∙ first (j + suc k) m (ground (arith, room)) (parts.0) (omega (arith, fits, long))
      ∙ operands op f means xs ys j t a b second k m (ground (arith, room)) (parts.1)
          (omega (arith, fits, long))
      ∙ resume_length k (length xs + length (ys ++ (op ∷ []))) (length (xs ++ (ys ++ (op ∷ [])))) m
          (map_both f a b) (omega (arith, long))

  -- An operation on the top, behind the code of its operand. `tail` is the operation with its
  -- own operands, and `g` its meaning.
  unary_code :
      (tail : List ℕ) (g : ℕ → Option ℕ)
      → ((a k : ℕ) (m : Machine)
          → length (m.stack) < expr_stack_max
          → Holds memory (m.reader.position) tail
          → m.reader.position + length tail ≤ m.reader.limit
          → run memory arch cfa frame (suc k) (record m { stack = a ∷ m.stack })
            ≡ resume k (length tail) m (g a))
      → (xs : List ℕ) (i s : ℕ) (a : Option ℕ) → 1 ≤ s
      → Runs xs i s a
      → Runs (xs ++ tail) (i + 1) s (at_address g a)
  unary_code tail g means xs i s a some_slot first k m room holds fits =
      let long = length-append xs tail in
      let parts = Holds-append memory (m.reader.position) xs tail holds in
      run_fuel m (i + 1 + k) (i + suc k) (omega arith)
      ∙ first (suc k) m room (parts.0) (omega (arith, fits, long))
      ∙ on_value a (parts.1) (omega (arith, fits, long))
      ∙ resume_length k (length xs + length tail) (length (xs ++ tail)) m (at_address g a)
          (omega (arith, long))
    where
      on_value :
          (a : Option ℕ)
          → Holds memory (m.reader.position + length xs) tail
          → m.reader.position + length xs + length tail ≤ m.reader.limit
          → resume (suc k) (length xs) m a ≡ resume k (length xs + length tail) m (at_address g a)
      on_value none holds fits = refl
      on_value (some v) holds fits =
          means v k (record m { reader = skip (length xs) (m.reader) })
            (omega (arith, room, some_slot)) holds fits
          ∙ resume_skip k (length xs) (length tail) m (g v)

  frame_address_code : Runs (0x9C ∷ []) 1 1 (denote frame_address)
  unfolding operate denote
  frame_address_code k m room holds fits =
      run_fuel m (1 + k) (suc k) (omega arith)
      ∙ round k 0x9C m (holds.0) (omega (arith, fits))
      ∙ known (if cfa == 0 then none else some cfa)
    where
      m1 : Machine
      m1 = record m { reader = skip 1 (m.reader) }

      known :
          (value : Option ℕ)
          → run_on memory arch cfa frame (run memory arch cfa frame k) (push_option m1 value)
            ≡ resume k 1 m value
      known none = refl
      known (some v) =
          ap (run_on memory arch cfa frame (run memory arch cfa frame k))
            (push_room m1 v (omega (arith, room)))

  operate_breg :
      (reg : ℕ) (m : Machine)
      → reg < 32
      → operate memory arch cfa frame (0x70 + reg) m
        ≡ push_sum m (get_register_value arch frame reg) (read_sleb128 memory (m.reader))
  unfolding operate
  operate_breg reg m small =
      if-cases Means (leb 0x30 (0x70 + reg) && leb (0x70 + reg) 0x4F)
        (λ on. absurd (ground (arith, on, small)))
        (λ off.
          if-cases Means (leb 0x08 (0x70 + reg) && leb (0x70 + reg) 0x11)
            (λ on. absurd (ground (arith, on, small)))
            (λ off.
              if-cases Means ((0x70 + reg) == 0x23) (λ on. absurd (ground (arith, on, small)))
                (λ off.
                  if-cases Means ((0x70 + reg) == 0x22) (λ on. absurd (ground (arith, on, small)))
                    (λ off.
                      if-cases Means ((0x70 + reg) == 0x1C)
                        (λ on. absurd (ground (arith, on, small)))
                        (λ off.
                          if-cases Means ((0x70 + reg) == 0x06)
                            (λ on. absurd (ground (arith, on, small)))
                            (λ off.
                              if-cases Means ((0x70 + reg) == 0x9C)
                                (λ on. absurd (ground (arith, on, small)))
                                (λ off.
                                  if-cases Means ((0x70 + reg) == 0x91)
                                    (λ on. absurd (ground (arith, on, small)))
                                    (λ off.
                                      if-cases Means ((0x70 + reg) == 0x92)
                                        (λ on. absurd (ground (arith, on, small)))
                                        (λ off.
                                          if-cases Means ((0x70 + reg) == 0x9F)
                                            (λ on. absurd (ground (arith, on, small)))
                                            (λ off.
                                              if-cases Means
                                                (leb 0x70 (0x70 + reg) && leb (0x70 + reg) 0x8F)
                                                (λ on.
                                                  ap
                                                    (λ n.
                                                      push_sum m (get_register_value arch frame n)
                                                        (read_sleb128 memory (m.reader)))
                                                    (omega arith))
                                                (λ off.
                                                  absurd (ground (arith, off, small)))))))))))))
    where
      Means : Option Machine → Type 0
      Means x = x ≡ push_sum m (get_register_value arch frame reg) (read_sleb128 memory (m.reader))

  based_code :
      (reg offset : ℕ)
      → reg < 32
      → offset < 128
      → Runs ((0x70 + reg) ∷ offset ∷ []) 1 1 (denote (based reg offset))
  unfolding denote
  based_code reg offset small low k m room holds fits =
      run_fuel m (1 + k) (suc k) (omega arith)
      ∙ round k (0x70 + reg) m (holds.0) (omega (arith, fits))
      ∙ ap (run_on memory arch cfa frame (run memory arch cfa frame k)) (operate_breg reg m1 small)
      ∙ ap
          (λ x.
            run_on memory arch cfa frame (run memory arch cfa frame k)
              (push_sum m1 (get_register_value arch frame reg) x))
          (read_sleb128-byte memory offset (skip 1 (m.reader)) low holds' (omega (arith, fits)))
      ∙ known (get_register_value arch frame reg)
    where
      m1 : Machine
      m1 = record m { reader = skip 1 (m.reader) }

      r2 : Reader
      r2 = record (m.reader) { position = suc (m.reader.position + 1) }

      holds' : memory.byte (m.reader.position + 1) ≡ offset
      holds' = ap (λ p. memory.byte p) (omega arith) ∙ holds.1.0

      known :
          (value : Option ℕ)
          → run_on memory arch cfa frame
              (run memory arch cfa frame k)
              (push_sum m1 value (seven_bits offset, r2))
            ≡ resume k 2 m (map_option (λ v. plus v (seven_bits offset)) value)
      known none = refl
      known (some v) =
          ap (run_on memory arch cfa frame (run memory arch cfa frame k)) (
            push_room (record m { reader = r2 }) (plus v (seven_bits offset)) (omega (arith, room)))
          ∙ ap
              (λ p. run memory arch cfa frame k (record m {
                reader = record (m.reader) { position = p };
                stack = plus v (seven_bits offset) ∷ m.stack;
              }))
              (omega arith)

  displaced_tail :
      (n a k : ℕ) (m : Machine)
      → n < word_mod
      → length (m.stack) < expr_stack_max
      → Holds memory (m.reader.position) (0x23 ∷ encode_uleb128 10 n)
      → m.reader.position + length (0x23 ∷ encode_uleb128 10 n) ≤ m.reader.limit
      → run memory arch cfa frame (suc k) (record m { stack = a ∷ m.stack })
        ≡ resume k (length (0x23 ∷ encode_uleb128 10 n)) m (some (plus a n))
  unfolding operate
  displaced_tail n a k m small room holds fits =
      round k 0x23 (record m { stack = a ∷ m.stack }) (holds.0) (omega (arith, fits))
      ∙ ap (run_on memory arch cfa frame (run memory arch cfa frame k)) (
          ap (λ x. push (record m { reader = x.1 }) (plus a (x.0)))
            (read_uleb128-encode memory n (skip 1 (m.reader)) small holds' (omega (arith, fits)))
          ∙ push_room
              (record m { reader = skip (length (encode_uleb128 10 n)) (skip 1 (m.reader)) })
              (plus a n) room)
      ∙ ap
          (λ p.
            run memory arch cfa frame k (record m {
              reader = record (m.reader) { position = p };
              stack = plus a n ∷ m.stack;
            }))
          (omega arith)
    where
      holds' : Holds memory (m.reader.position + 1) (encode_uleb128 10 n)
      holds' = subst (λ p. Holds memory p (encode_uleb128 10 n)) (omega arith) (holds.1)

  load_tail :
      (a k : ℕ) (m : Machine)
      → length (m.stack) < expr_stack_max
      → Holds memory (m.reader.position) (0x06 ∷ [])
      → m.reader.position + 1 ≤ m.reader.limit
      → run memory arch cfa frame (suc k) (record m { stack = a ∷ m.stack })
        ≡ resume k 1 m (memory.safe_word a)
  unfolding operate
  load_tail a k m room holds fits =
      round k 0x06 (record m { stack = a ∷ m.stack }) (holds.0) fits ∙ known (memory.safe_word a)
    where
      m1 : Machine
      m1 = record m { reader = skip 1 (m.reader) }

      known :
          (value : Option ℕ)
          → run_on memory arch cfa frame (run memory arch cfa frame k) (push_option m1 value)
            ≡ resume k 1 m value
      known none = refl
      known (some v) =
          ap (run_on memory arch cfa frame (run memory arch cfa frame k)) (push_room m1 v room)

  slots-pos : (e : Expr) → 1 ≤ slots e
  unfolding slots
  slots-pos (sum a b) = ground arith
  slots-pos (difference a b) = ground arith
  slots-pos (displaced a n) = slots-pos a
  slots-pos (load a) = slots-pos a
  slots-pos (literal n) = omega arith
  slots-pos (constant n) = omega arith
  slots-pos frame_address = omega arith
  slots-pos (based reg offset) = omega arith

  -- The code of a tree has the meaning of the tree.
  run-code : (e : Expr) → Fits e → Runs (code e) (operations e) (slots e) (denote e)
  unfolding code operations slots denote operate
  run-code (literal n) h = literal_code n h
  run-code (constant n) h = constant_code n h
  run-code frame_address h = frame_address_code
  run-code (based reg offset) h = based_code reg offset (h.0) (h.1)
  run-code (sum a b) h =
      binary_code 0x22 plus (λ m. refl) (code a) (code b) (operations a) (operations b) (slots a)
        (slots b) (denote a) (denote b) (run-code a (h.0)) (run-code b (h.1))
  run-code (difference a b) h =
      binary_code 0x1C minus (λ m. refl) (code a) (code b) (operations a) (operations b) (slots a)
        (slots b) (denote a) (denote b) (run-code a (h.0)) (run-code b (h.1))
  run-code (displaced a n) h =
      unary_code (0x23 ∷ encode_uleb128 10 n) (λ v. some (plus v n))
        (λ v k m room holds fits. displaced_tail n v k m (h.1) room holds fits) (code a)
        (operations a) (slots a) (denote a) (slots-pos a) (run-code a (h.0))
  run-code (load a) h =
      unary_code (0x06 ∷ []) (memory.safe_word) load_tail (code a) (operations a) (slots a)
        (denote a) (slots-pos a) (run-code a h)

  -- What follows the loop for a single value.
  abbrev pub result_of : Option ℕ → Evaluated
  result_of none = failed
  result_of (some value) = evaluated value false

  operations-le : (e : Expr) → operations e ≤ length (code e)
  unfolding operations code encode_uleb128
  operations-le (literal n) = omega arith
  operations-le (constant n) = ground arith
  operations-le frame_address = omega arith
  operations-le (based reg offset) = omega arith
  operations-le (sum a b) = omega (
    arith,
    operations-le a,
    operations-le b,
    length-append (code a) (code b ++ (0x22 ∷ [])),
    length-append (code b) (0x22 ∷ []),
  )
  operations-le (difference a b) = omega (
    arith,
    operations-le a,
    operations-le b,
    length-append (code a) (code b ++ (0x1C ∷ [])),
    length-append (code b) (0x1C ∷ []),
  )
  operations-le (displaced a n) =
      omega (arith, operations-le a, length-append (code a) (0x23 ∷ encode_uleb128 10 n))
  operations-le (load a) = omega (arith, operations-le a, length-append (code a) (0x06 ∷ []))

  operations-pos : (e : Expr) → 1 ≤ operations e
  unfolding operations
  operations-pos (literal n) = omega arith
  operations-pos (constant n) = omega arith
  operations-pos frame_address = omega arith
  operations-pos (based reg offset) = omega arith
  operations-pos (sum a b) = omega arith
  operations-pos (difference a b) = omega arith
  operations-pos (displaced a n) = omega arith
  operations-pos (load a) = omega arith

  -- evaluateDwarfExpression of the code of a tree gives the meaning of the tree as a location, and
  -- fails where the tree has no meaning. The tree's operands are in the ranges of their encodings,
  -- it needs no more than the 16 slots of the stack, and its code stands in memory in front of the
  -- end of the address space.
  pub evaluate_dwarf_expression-code :
      (e : Expr) (expr : ℕ)
      → Fits e
      → slots e ≤ expr_stack_max
      → 0 < expr
      → expr + length (code e) < word_mod
      → Holds memory expr (code e)
      → evaluate_dwarf_expression memory arch cfa frame expr (length (code e))
        ≡ result_of (denote e)
  unfolding evaluate_dwarf_expression run
  evaluate_dwarf_expression-code e expr fits room real bound holds =
      if-cases (λ x. x ≡ result_of (denote e)) (expr == 0 || length (code e) == 0)
        (λ nothing. absurd (ground (arith, nothing, real, operations-le e, operations-pos e)))
        (λ some_code.
          run_fuel start (suc (length (code e)))
            (operations e + suc (length (code e) - operations e)) (omega (arith, operations-le e))
          ∙ run-code e fits (suc (length (code e) - operations e)) start (omega (arith, room)) holds
              within
          ∙ finish (length (code e) - operations e) (denote e))
    where
      start : Machine
      start = record {
        reader = reader_at expr (length (code e));
        stack = [];
        result_is_value = false;
      }

      within : expr + length (code e) ≤ wrap (expr + length (code e))
      within = omega (arith, bound)

      finish :
          (k : ℕ) (meaning : Option ℕ)
          → resume (suc k) (length (code e)) start meaning ≡ result_of meaning
      finish k none = refl
      finish k (some v) =
          if-cases (λ x. x ≡ evaluated v false) (has_data (skip (length (code e)) (start.reader)) 1)
            (λ more. absurd (ground (arith, more, bound))) (λ at_end. refl)
