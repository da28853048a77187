-- ===== src/Json/Decode/Text.antt =====
-- Decoding of strings: `writeUTF8` and `decodeString`.
use kscrash.Prelude.{
  ℕ, zero, suc, ◌+◌, ◌-◌, ◌*◌, ◌/◌, ◌%◌, ◌^◌, bit_or, Bool, true, false, ◌&&◌, ◌||◌, not, [], ◌∷◌,
  ◌++◌, Option, none, some, Bytes, ◌==◌, ltb, leb, if◌then◌else◌, length, drop, get_or,
}
use kscrash.Json.Codes.{
  ksjson_error_invalid_character, ksjson_error_data_too_long, ksjson_error_incomplete,
}
use kscrash.Json.Decode.Callbacks.{Beyond}

-- A value, or an error code.
pub data Decoded {ℓ} (A : Type ℓ) : Type ℓ where
  ok : A → Decoded A
  err : ℕ → Decoded A

infixl 5 ◌>>=◌
abbrev pub ◌>>=◌ {ℓ κ} : {A : Type ℓ} {B : Type κ} → Decoded A → (A → Decoded B) → Decoded B
ok a >>= f = f a
err e >>= f = err e

-- The bytes written go in front of those that the later rounds write.
abbrev pub put : Bytes → Decoded Bytes → Decoded Bytes
put bytes (ok more) = ok (bytes ++ more)
put bytes (err e) = err e

-- The mark of an invalid digit.
abbrev pub inv : ℕ
inv = 0x11111

-- `g_hexConversion[(unsigned)c]`.
unfoldable pub hex_conversion : Beyond → ℕ → ℕ
hex_conversion beyond c =
    if leb b'0' c && leb c b'9'
    then c - b'0'
    else if leb b'A' c && leb c b'F'
    then c - b'A' + 10
    else if leb b'a' c && leb c b'f'
    then c - b'a' + 10
    else if ltb c 128
    then inv
    else beyond.hex_table c

-- `writeUTF8`: the bytes written.
unfoldable pub write_utf8 : ℕ → Decoded Bytes
write_utf8 character =
    if leb character 0x7f
    then ok (character ∷ [])
    else if leb character 0x7ff
    then ok (bit_or 0xc0 (character / 2 ^ 6) ∷ bit_or 0x80 (character % 2 ^ 6) ∷ [])
    else if leb character 0xffff
    then ok (
        bit_or 0xe0 (character / 2 ^ 12)
        ∷ bit_or 0x80 (character / 2 ^ 6 % 2 ^ 6)
        ∷ bit_or 0x80 (character % 2 ^ 6)
        ∷ [])
    else if leb character 0x10ffff
    then ok (
        bit_or 0xf0 (character / 2 ^ 18)
        ∷ bit_or 0x80 (character / 2 ^ 12 % 2 ^ 6)
        ∷ bit_or 0x80 (character / 2 ^ 6 % 2 ^ 6)
        ∷ bit_or 0x80 (character % 2 ^ 6)
        ∷ [])
    else err ksjson_error_invalid_character

-- What the search for the closing quote finds: the bytes in front of it, whether none of them
-- is a backslash, and what follows the quote.
pub record Quoted : Type 0 where
  pub body : Bytes
  pub fast_copy : Bool
  pub rest : Bytes

abbrev pub Quoted-cons : ℕ → Bool → Option Quoted → Option Quoted
Quoted-cons c plain none = none
Quoted-cons c plain (some q) =
    some (record q { body = c ∷ q.body; fast_copy = plain && q.fast_copy })

-- The search. The flag says that the byte before was a backslash that skips this one.
unfoldable pub find_quote : Bool → Bytes → Option Quoted
find_quote skipped [] = none
find_quote true (c ∷ cs) = Quoted-cons c true (find_quote false cs)
find_quote false (c ∷ cs) =
    let more = find_quote (c == b'\\') cs in
    if c == b'"'
    then some (record { body = []; fast_copy = true; rest = cs })
    else Quoted-cons c (not (c == b'\\')) more

-- The one-letter escapes.
unfoldable pub simple_escape : ℕ → Option ℕ
simple_escape c =
    if c == b'"'
    then some b'"'
    else if c == b'\\'
    then some b'\\'
    else if c == b'n'
    then some 10
    else if c == b'r'
    then some 13
    else if c == b'/'
    then some b'/'
    else if c == b't'
    then some 9
    else if c == b'b'
    then some 8
    else if c == b'f'
    then some 12
    else none

module _ (beyond : Beyond) where
  -- The four digits at the front of `cs`. The shifts are those of a 32-bit `unsigned`.
  unfoldable pub hex4 : Bytes → ℕ
  hex4 cs =
      let h = λ (i : ℕ). hex_conversion beyond (get_or cs i 0) in
      bit_or (bit_or (bit_or (h 0 * 2 ^ 12 % 2 ^ 32) (h 1 * 2 ^ 8 % 2 ^ 32)) (h 2 * 2 ^ 4 % 2 ^ 32))
        (h 3)

  -- The second half of a surrogate pair, on what follows the `u` of the first.
  unfoldable pub decode_trail : ℕ → Bytes → Decoded (Bytes × Bytes)
  decode_trail lead cs =
      if ltb (length cs) 10
      then err ksjson_error_incomplete
      else if not (get_or cs 4 0 == b'\\') || not (get_or cs 5 0 == b'u')
      then err ksjson_error_invalid_character
      else (let trail = hex4 (drop 6 cs) in
          if ltb trail 0xdc00 || ltb 0xdfff trail
          then err ksjson_error_invalid_character
          else (write_utf8 (bit_or ((lead - 0xd800) * 2 ^ 10) (trail - 0xdc00)) >>= λ bytes.
              ok (bytes, drop 10 cs)))

  -- `case 'u'`, on what follows it: the bytes written, and what is left.
  unfoldable pub decode_unicode : Bytes → Decoded (Bytes × Bytes)
  decode_unicode cs =
      if ltb (length cs) 4
      then err ksjson_error_incomplete
      else (let accum = hex4 cs in
          if ltb 0xffff accum
          then err ksjson_error_invalid_character
          else if leb 0xdc00 accum && leb accum 0xdfff
          then err ksjson_error_invalid_character
          else if leb 0xd800 accum && leb accum 0xdbff
          then decode_trail accum cs
          else (write_utf8 accum >>= λ bytes. ok (bytes, drop 4 cs)))

  -- Behind a backslash. At the end of the body the byte read is the closing quote.
  unfoldable pub unescape_step : (Bytes → Decoded Bytes) → Bytes → Decoded Bytes
  unescape_step next [] = put (b'"' ∷ []) (next [])
  unescape_step next (c ∷ cs) =
      if c == b'u'
      then (decode_unicode cs >>= λ (bytes, rest). put bytes (next rest))
      else elim (simple_escape c) [
        | none ↦ err ksjson_error_invalid_character
        | some d ↦ put (d ∷ []) (next cs)
      ]

  -- The copying loop. Each round reads at least a byte, so the length of the body is enough fuel.
  unfoldable pub unescape : ℕ → Bytes → Decoded Bytes
  unescape fuel [] = ok []
  unescape zero (c ∷ cs) = ok []
  unescape (suc fuel) (c ∷ cs) = elim (c == b'\\') [
    | true ↦ unescape_step (unescape fuel) cs
    | false ↦ put (c ∷ []) (unescape fuel cs)
  ]

  unfoldable pub copy_body : Quoted → Decoded (Bytes × Bytes)
  copy_body q =
      if q.fast_copy
      then ok (q.body, q.rest)
      else (unescape (length q.body) q.body >>= λ bytes. ok (bytes, q.rest))

  -- `decodeString`: the bytes put into the buffer, and what follows the closing quote.
  unfoldable pub decode_string : ℕ → Bytes → Decoded (Bytes × Bytes)
  decode_string dst_buffer_length [] =
      if beyond.past_end == b'"'
      then err ksjson_error_incomplete
      else err ksjson_error_invalid_character
  decode_string dst_buffer_length (c ∷ cs) =
      if c == b'"'
      then elim (find_quote false cs) [
        | none ↦ err ksjson_error_incomplete
        | some q ↦
            if leb dst_buffer_length (length q.body)
            then err ksjson_error_data_too_long
            else copy_body q
      ]
      else err ksjson_error_invalid_character
