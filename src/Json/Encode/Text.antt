-- ===== src/Json/Encode/Text.antt =====
-- Escaping of strings: `appendEscapedString`, `addEscapedString` and `addQuotedEscapedString`.
use kscrash.Prelude.{
  ℕ, zero, suc, ◌/◌, Bool, ◌&&◌, ◌||◌, not, [], ◌∷◌, ◌++◌, Option, none, some, Bytes, ◌==◌, ltb,
  if◌then◌else◌, take, drop, length,
}
use kscrash.Json.Codes.{ksjson_ok, ksjson_error_invalid_character}
use kscrash.Json.Encode.Context.{Call, Sink, ◌>>◌, add_json_data}

-- KSJSONCODEC_WorkBufferSize.
abbrev pub work_buffer_size : ℕ
work_buffer_size = 512

-- The most that `addEscapedString` hands to `appendEscapedString` at once.
abbrev pub portion_size : ℕ
portion_size = work_buffer_size / 2

-- The test of the first loop of `appendEscapedString`.
abbrev pub is_plain : ℕ → Bool
is_plain c = not (c == b'\\') && not (c == b'"') && not (ltb c b' ')

-- One round of the second loop: the bytes that it appends to the work buffer.
unfoldable pub escape_char : ℕ → Option Bytes
escape_char c =
    if c == b'\\' || c == b'"'
    then some (b'\\' ∷ c ∷ [])
    else if c == 8
    then some (b'\\' ∷ b'b' ∷ [])
    else if c == 12
    then some (b'\\' ∷ b'f' ∷ [])
    else if c == 10
    then some (b'\\' ∷ b'n' ∷ [])
    else if c == 13
    then some (b'\\' ∷ b'r' ∷ [])
    else if c == 9
    then some (b'\\' ∷ b't' ∷ [])
    else if ltb c b' '
    then none
    else some (c ∷ [])

-- What has been put on the buffer goes in front of what the later rounds put there.
abbrev pub after : Bytes → Option Bytes → Option Bytes
after dst none = none
after dst (some rest) = some (dst ++ rest)

abbrev pub escape_next : Option Bytes → Option Bytes → Option Bytes
escape_next none rest = none
escape_next (some dst) rest = after dst rest

-- The second loop.
unfoldable pub escape_rest : Bytes → Option Bytes
escape_rest [] = some []
escape_rest (c ∷ cs) = escape_next (escape_char c) (escape_rest cs)

-- The first loop, then the second from where it stops. `none` is KSJSON_ERROR_INVALID_CHARACTER.
unfoldable pub escape_portion : Bytes → Option Bytes
escape_portion [] = some []
escape_portion (c ∷ cs) =
    let more = escape_portion cs in if is_plain c then after (c ∷ []) more else escape_rest (c ∷ cs)

module _ {S : Type 0} (sink : Sink S) where
  unfoldable pub append_escaped_string : Bytes → Call S
  append_escaped_string string c = elim (escape_portion string) [
    | none ↦ (ksjson_error_invalid_character, c)
    | some encoded ↦ add_json_data sink encoded c
  ]

  -- The loop of `addEscapedString`; `fuel` bounds its rounds.
  unfoldable pub add_escaped_portions : ℕ → Bytes → Call S
  add_escaped_portions fuel [] c = (ksjson_ok, c)
  add_escaped_portions zero (x ∷ xs) c = (ksjson_ok, c)
  add_escaped_portions (suc fuel) (x ∷ xs) c =
      (append_escaped_string (take portion_size (x ∷ xs))
          >> add_escaped_portions fuel (drop portion_size (x ∷ xs)))
        c

  unfoldable pub add_escaped_string : Bytes → Call S
  add_escaped_string string = add_escaped_portions (length string) string

  -- `return result || closeResult;` is 0 or 1, whatever the two codes are.
  unfoldable pub add_quoted_escaped_string : Bytes → Call S
  add_quoted_escaped_string string c =
      let (opened, c₁) = add_json_data sink (b'"' ∷ []) c in
      if opened == ksjson_ok
      then (let (result, c₂) = add_escaped_string string c₁ in
          let (close_result, c₃) = add_json_data sink (b'"' ∷ []) c₂ in
          (if result == 0 && close_result == 0 then 0 else 1, c₃))
      else (opened, c₁)
