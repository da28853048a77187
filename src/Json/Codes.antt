-- ===== src/Json/Codes.antt =====
-- The status codes of include/KSJSONCodec.h. A code is the `int` that the functions return,
-- since user callbacks may return any.
use kscrash.Prelude.{ℕ, Bytes, codes, ◌==◌, if◌then◌else◌}

abbrev pub ksjson_ok : ℕ
ksjson_ok = 0

abbrev pub ksjson_error_invalid_character : ℕ
ksjson_error_invalid_character = 1

abbrev pub ksjson_error_data_too_long : ℕ
ksjson_error_data_too_long = 2

abbrev pub ksjson_error_cannot_add_data : ℕ
ksjson_error_cannot_add_data = 3

abbrev pub ksjson_error_incomplete : ℕ
ksjson_error_incomplete = 4

abbrev pub ksjson_error_invalid_data : ℕ
ksjson_error_invalid_data = 5

-- `ksjson_stringForError`.
pub string_for_error : ℕ → Bytes
string_for_error error =
    if error == ksjson_error_invalid_character
    then codes "Invalid character"
    else if error == ksjson_error_data_too_long
    then codes "Data too long"
    else if error == ksjson_error_cannot_add_data
    then codes "Cannot add data"
    else if error == ksjson_error_incomplete
    then codes "Incomplete data"
    else if error == ksjson_error_invalid_data
    then codes "Invalid data"
    else codes "(unknown error)"
