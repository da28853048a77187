-- ===== src/AppState.antt =====
-- KSCrashMonitor_AppState.c: the sessions and launches of the application, and the file that carries
-- them from launch to launch. The file and the clock are parameters.
pub mod Notify
pub mod Save
pub mod Launch
mod Tests
use kscrash.Prelude.{
  ℕ, zero, suc, ◌-◌, ◌%◌, Bool, true, false, ◌&&◌, not, Option, none, some, Bytes, codes, ℤ, pos,
  negsuc, ◌==◌, ltb, leb, if◌then◌else◌,
}
use kscrash.Json.Codes.{ksjson_ok, ksjson_error_invalid_data, ksjson_error_cannot_add_data}
use kscrash.Json.Encode.Context.{Call, Sink, ◌>>◌}
use kscrash.Json.Encode.Number.{DoubleOps}
use kscrash.Json.Encode.Element.{
  begin_encode, begin_object, add_boolean_element, add_integer_element, add_floating_point_element,
  end_encode,
}
use kscrash.Json.Decode.Callbacks.{Beyond, Callbacks}
use kscrash.Json.Decode.Element.{decode}
use kscrash.File.Path.{is_same}

-- `KSCrash_AppState`.
pub record AppState (D : Type 0) : Type 0 where
  pub active_duration_since_last_crash : D
  pub background_duration_since_last_crash : D
  pub launches_since_last_crash : ℤ
  pub sessions_since_last_crash : ℤ
  pub active_duration_since_launch : D
  pub background_duration_since_launch : D
  pub sessions_since_launch : ℤ
  pub crashed_last_launch : Bool
  pub crashed_this_launch : Bool
  pub app_state_transition_time : D
  pub application_is_active : Bool
  pub application_is_in_foreground : Bool

-- `(int)value` of an `int64_t`.
unfoldable pub to_int : ℤ → ℤ
to_int (pos n) =
    let r = n % 4_294_967_296 in if ltb r 2_147_483_648 then pos r else negsuc (4_294_967_295 - r)
to_int (negsuc n) =
    let r = n % 4_294_967_296 in if ltb r 2_147_483_648 then negsuc r else pos (4_294_967_295 - r)

-- `++` of an `int`. At INT_MAX the C is undefined; here the count wraps around.
abbrev pub increment : ℤ → ℤ
increment (pos n) = if ltb n 2_147_483_647 then pos (suc n) else negsuc 2_147_483_647
increment (negsuc zero) = pos 0
increment (negsuc (suc n)) = negsuc n

-- `strcmp(name, key) == 0`. Within an array the name is NULL, and the C is undefined.
abbrev pub is_key : Option Bytes → Bytes → Bool
is_key none key = false
is_key (some name) key = is_same name key

-- Arithmetic on `double`.
pub record Arithmetic (D : Type 0) : Type 0 where
  pub nought : D
  pub plus : D → D → D
  pub minus : D → D → D

-- What is done with the file: `open` and `ksfu_readEntireFile` of up to 50,000 bytes, `open` with
-- O_TRUNC, and `ksfu_writeBytesToFD`.
pub record Storage (World : Type 0) : Type 0 where
  pub read_entire_file : World → Option Bytes
  pub open_truncated : World → Bool × World
  pub write : Bytes → World → Bool × World

module _ (ops : DoubleOps) (math : Arithmetic ops.Double) where
  abbrev pub State : Type 0
  State = AppState ops.Double

  -- `memset(&g_state, 0, sizeof(g_state))` and the time of the transition.
  unfoldable pub cleared : ops.Double → State
  cleared now = record {
    active_duration_since_last_crash = math.nought;
    background_duration_since_last_crash = math.nought;
    launches_since_last_crash = pos 0;
    sessions_since_last_crash = pos 0;
    active_duration_since_launch = math.nought;
    background_duration_since_launch = math.nought;
    sessions_since_launch = pos 0;
    crashed_last_launch = false;
    crashed_this_launch = false;
    app_state_transition_time = now;
    application_is_active = false;
    application_is_in_foreground = false;
  }

  unfoldable pub on_boolean_element : Option Bytes → Bool → State → ℕ × State
  on_boolean_element name value s = (
    ksjson_ok,
    if is_key name (codes "crashedLastLaunch") then record s { crashed_last_launch = value } else s,
  )

  unfoldable pub on_floating_point_element : Option Bytes → ops.Double → State → ℕ × State
  on_floating_point_element name value s =
      let s' =
        if is_key name (codes "activeDurationSinceLastCrash")
        then record s { active_duration_since_last_crash = value }
        else s in
      (
        ksjson_ok,
        if is_key name (codes "backgroundDurationSinceLastCrash")
            then record s' { background_duration_since_last_crash = value }
            else s',
      )

  -- The counters of `onIntegerElement`.
  abbrev pub set_counters : Option Bytes → ℤ → State → State
  set_counters name n s =
      if is_key name (codes "launchesSinceLastCrash")
      then record s { launches_since_last_crash = n }
      else if is_key name (codes "sessionsSinceLastCrash")
      then record s { sessions_since_last_crash = n }
      else s

  abbrev pub is_version : ℤ → Bool
  is_version (pos n) = n == 1
  is_version (negsuc n) = false

  unfoldable pub on_integer_element : Option Bytes → ℤ → State → ℕ × State
  on_integer_element name value s =
      if is_key name (codes "version")
      then (if is_version value
          then on_floating_point_element name (ops.of_integer value) s
          else (ksjson_error_invalid_data, s))
      else on_floating_point_element name (ops.of_integer value)
          (set_counters name (to_int value) s)

  abbrev pub is_counter : Option Bytes → Bool
  is_counter name =
      if is_key name (codes "launchesSinceLastCrash")
      then true
      else is_key name (codes "sessionsSinceLastCrash")

  unfoldable pub on_unsigned_integer_element : Option Bytes → ℕ → State → ℕ × State
  on_unsigned_integer_element name value s =
      if is_key name (codes "version")
      then (if value == 1
          then on_floating_point_element name (ops.of_integer (pos value)) s
          else (ksjson_error_invalid_data, s))
      else if is_counter name && ltb 2_147_483_647 value
      then (ksjson_error_invalid_data, s)
      else on_floating_point_element name (ops.of_integer (pos value))
          (set_counters name (pos value) s)

  abbrev pub callbacks : Callbacks ops.Double State
  callbacks = record {
    on_boolean_element = on_boolean_element;
    on_floating_point_element = on_floating_point_element;
    on_integer_element = on_integer_element;
    on_unsigned_integer_element = on_unsigned_integer_element;
    on_null_element = λ name s. (ksjson_ok, s);
    on_string_element = λ name value s. (ksjson_ok, s);
    on_begin_object = λ name s. (ksjson_ok, s);
    on_begin_array = λ name s. (ksjson_ok, s);
    on_end_container = λ s. (ksjson_ok, s);
    on_end_data = λ s. (ksjson_ok, s);
  }

  abbrev pub after_decode : State → Option (ℕ × State) → Bool × State
  after_decode s none = (false, s)
  after_decode s (some (result, s')) = (result == ksjson_ok, s')

  abbrev pub load_text : Beyond → Option Bytes → State → Bool × State
  load_text beyond none s = (false, s)
  load_text beyond (some text) s = after_decode s (decode ops beyond callbacks text 1000 s)
