-- ===== src/Strings/Utf8/Accepts.antt =====
-- `ksstring_isNullTerminatedUTF8String` accepts the strings of Text, and no others.
use kscrash.Prelude.{
  ℕ, zero, suc, ◌+◌, ◌/◌, ◌≤◌, ◌<◌, ◌≡◌, inl, inr, ◌↔◌, refl, sym, ap, ◌∙◌, subst, Bool, true,
  false, ◌||◌, ◌&&◌, not, Option, none, some, [], ◌∷◌, ◌++◌, append_assoc, List, Bytes, All, length,
  length-append, arith, ◌==◌, ltb, leb, le→leb, if-cases,
}
use kscrash.Strings.Utf8.{
  is_printable_control, continuation_byte_count, skip_continuation, resume, is_utf8,
  is_null_terminated_utf8_string,
}
use kscrash.Strings.Utf8.Text.{
  IsLead, IsPlain, IsCharacter, concat, IsText, count-followers, skip_continuation-All, SkipIs,
  skip_continuation-SkipIs,
}

module _ (min_length : ℕ) where
  -- The text from a position on.
  abbrev IsTextFrom : ℕ → Bytes → Type 0
  IsTextFrom position bytes =
      (text : List Bytes) × (rest : Bytes) × All IsCharacter text
      × (bytes ≡ concat text ++ (0 ∷ rest))
      × (min_length ≤ position + length (concat text))

  accepted :
      (text : List Bytes) (rest : Bytes) (fuel position : ℕ)
      → All IsCharacter text
      → length (concat text) < fuel
      → min_length ≤ position + length (concat text)
      → is_utf8 min_length fuel position (concat text ++ (0 ∷ rest)) ≡ true
  unfolding is_utf8
  accepted text rest zero position h enough long = absurd (omega (arith, enough))
  accepted [] rest (suc fuel) position h enough long =
      le→leb min_length position (omega (arith, long))
  accepted ([] ∷ text) rest (suc fuel) position (h, hs) enough long = absurd h
  accepted ((c ∷ []) ∷ text) rest (suc fuel) position (inl (plain, alone), hs) enough long =
      rw (not_nul, not_high, not_control)
        (accepted text rest fuel (suc position) hs (omega (arith, enough)) (omega (arith, long)))
    where
      not_nul : (c == 0) ≡ false
      not_nul = ground (arith, plain)

      not_high : leb 128 c ≡ false
      not_high = ground (arith, plain)

      not_control : (ltb c 32 && not (is_printable_control c)) ≡ false
      not_control = ground (arith, plain)
  accepted ((c ∷ b ∷ bytes) ∷ text) rest (suc fuel) position (inl (plain, alone), hs) enough long =
      absurd (omega (arith, ap length alone))
  accepted ((c ∷ bytes) ∷ text) rest (suc fuel) position (inr ((low, high, same), follow), hs)
        enough long =
      rw
        (
          not_nul,
          is_high,
          is_first,
          count,
          append_assoc bytes (concat text) (0 ∷ rest),
          room,
          skip_continuation-All bytes (concat text ++ (0 ∷ rest)) follow,
        )
        (accepted text rest fuel (position + suc (length bytes)) hs
          (omega (arith, enough, length-append bytes (concat text)))
          (omega (arith, long, length-append bytes (concat text))))
    where
      not_nul : (c == 0) ≡ false
      not_nul = ground (arith, low)

      is_high : leb 128 c ≡ true
      is_high = ground (arith, low)

      is_first : c / 64 ≡ 3
      is_first = omega (arith, low, high)

      count : continuation_byte_count c ≡ length bytes
      count = count-followers c is_first ∙ ground (arith, same, high)

      room :
          (length bytes == 0
            || leb (suc (length (bytes ++ (concat text ++ (0 ∷ rest))))) (length bytes))
          ≡ false
      room = ground (arith, same, length-append bytes (concat text ++ (0 ∷ rest)))

  abbrev IsAccepted : ℕ → Bytes → Bool → Type 0
  IsAccepted position bytes b = b ≡ true → IsTextFrom position bytes

  refused : (position : ℕ) (bytes : Bytes) → IsAccepted position bytes false
  refused position bytes h = absurd (ground (arith, h))

  longer :
      (c : ℕ) (front bytes rest : Bytes) (position : ℕ)
      → IsCharacter (c ∷ front)
      → bytes ≡ front ++ rest
      → IsTextFrom (position + suc (length front)) rest
      → IsTextFrom position (c ∷ bytes)
  longer c front bytes rest position h split (text, left, all, is, long) = (
    (c ∷ front) ∷ text,
    left,
    (h, all),
    ap (λ bs. c ∷ bs)
        (split ∙ ap (λ bs. front ++ bs) is ∙ sym (append_assoc front (concat text) (0 ∷ left))),
    omega (arith, long, length-append front (concat text)),
  )

  is_utf8-IsText :
      (fuel position : ℕ) (bytes : Bytes)
      → IsAccepted position bytes (is_utf8 min_length fuel position bytes)
  unfolding is_utf8
  is_utf8-IsText zero position bytes = refused position bytes
  is_utf8-IsText (suc fuel) position [] = refused position []
  is_utf8-IsText (suc fuel) position (ch ∷ bytes) =
      if-cases (IsAccepted position (ch ∷ bytes)) (ch == 0)
        (λ nul long.
          ([], bytes, tt, ap (λ c. c ∷ bytes) (ground (arith, nul)), ground (arith, long)))
        (λ not_nul.
          if-cases (IsAccepted position (ch ∷ bytes)) (leb 128 ch)
            (λ is_high.
              if-cases (IsAccepted position (ch ∷ bytes)) (not (ch / 64 == 3))
                (λ other. refused position (ch ∷ bytes))
                (λ is_first.
                  if-cases (IsAccepted position (ch ∷ bytes))
                    (continuation_byte_count ch == 0
                      || leb (suc (length bytes)) (continuation_byte_count ch))
                    (λ bad. refused position (ch ∷ bytes))
                    (λ good.
                      behind (is_utf8-IsText fuel) (ground (arith, is_first)) (ground (arith, good))
                        (skip_continuation (continuation_byte_count ch) bytes)
                        (skip_continuation-SkipIs (continuation_byte_count ch) bytes))))
            (λ low.
              if-cases (IsAccepted position (ch ∷ bytes))
                (ltb ch 32 && not (is_printable_control ch))
                (λ control. refused position (ch ∷ bytes))
                (λ plain h.
                  longer ch [] bytes bytes position (inl (is_plain low plain, refl)) refl (
                    subst (λ n. IsTextFrom n bytes) (omega arith)
                      (is_utf8-IsText fuel (suc position) bytes h)))))
    where
      is_plain :
          leb 128 ch ≡ false → (ltb ch 32 && not (is_printable_control ch)) ≡ false → IsPlain ch
      is_plain low plain = ground (arith, low, plain)

      behind :
          ((position : ℕ) (bytes : Bytes)
            → IsAccepted position bytes (is_utf8 min_length fuel position bytes))
          → ch / 64 ≡ 3
          → (continuation_byte_count ch == 0) ≡ false
          → (o : Option Bytes) → SkipIs (continuation_byte_count ch) bytes o
          → IsAccepted position (ch ∷ bytes) (
              resume min_length
                (is_utf8 min_length fuel)
                (position + suc (continuation_byte_count ch))
                o)
      behind again first some_follow none skipped h = refused position (ch ∷ bytes) h
      behind again first some_follow (some rest) (front, split, len, all) h =
          longer ch front bytes rest position (inr (is_lead, all)) split (
            subst (λ n. IsTextFrom (position + suc n) rest) (sym len)
              (again (position + suc (continuation_byte_count ch)) rest h))
        where
          is_lead : IsLead ch (length front)
          is_lead = ground (arith, first, some_follow, len, count-followers ch first)

  -- A memory is accepted by `ksstring_isNullTerminatedUTF8String` if and only if it holds, in front
  -- of `end`, characters that are well formed, at least the least length of them in bytes, and a
  -- NUL behind them. A character is an ASCII character that is no control character but a tab, a
  -- line feed or a carriage return, or a first byte with the one to five continuation bytes that
  -- it asks for.
  pub is_null_terminated_utf8_string-IsText :
      (memory : Bytes)
      → (is_null_terminated_utf8_string min_length memory ≡ true) ↔ IsText min_length memory
  unfolding is_null_terminated_utf8_string
  is_null_terminated_utf8_string-IsText memory = (sound, complete)
    where
      sound : is_utf8 min_length (length memory) 0 memory ≡ true → IsText min_length memory
      sound h =
          let (text, rest, all, is, long) = is_utf8-IsText (length memory) 0 memory h in
          (text, rest, all, is, omega (arith, long))

      complete : IsText min_length memory → is_utf8 min_length (length memory) 0 memory ≡ true
      complete (text, rest, all, is, long) =
          ap (is_utf8 min_length (length memory) 0) is
          ∙ accepted text rest (length memory) 0 all
              (omega (arith, ap length is, length-append (concat text) (0 ∷ rest)))
              (omega (arith, long))
