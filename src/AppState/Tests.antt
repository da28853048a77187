-- ===== src/AppState/Tests.antt =====
-- The launch behind one that crashed, with natural numbers for `double`.
use kscrash.Prelude.{ℕ, ◌≡◌, refl, ◌+◌, ◌-◌, true, false, [], codes, pos, ℤ, negsuc, arith}
use kscrash.Json.Encode.Number.{
  DoubleOps, format_double, finite_text, check_write_result, trim_fraction, cut_zeros,
  decimal_digits,
}
use kscrash.Json.Event.{replay}
use kscrash.AppState.{Arithmetic, State, callbacks, cleared}
use kscrash.AppState.Launch.{Follows, AfterReset, reset_state-Follows}
use kscrash.AppState.Save.{file, object_text, saved_events, HasTexts}
use kscrash.AppState.Notify.{save_state}
use kscrash.Json.Decode.Callbacks.{Beyond}

abbrev size : ℤ → ℕ
size (pos n) = n
size (negsuc n) = 0

abbrev ops : DoubleOps
ops = record {
  Double = ℕ;
  is_nan = λ d. false;
  is_inf = λ d. false;
  is_positive = λ d. true;
  near_float = λ d. true;
  print_float = λ d. codes "0.0";
  print_double = λ d. codes "0.0";
  print_fixed = λ d. codes "0.0";
  scan = λ s. 0;
  negate = λ d. d;
  of_integer = size;
}

abbrev math : Arithmetic ℕ
math = record { nought = 0; plus = λ a b. a + b; minus = λ a b. a - b }

abbrev beyond : Beyond
beyond = record { hex_table = λ i. 255; past_end = 0 }

abbrev crashed : State ops math
crashed = record (cleared ops math 100) {
  active_duration_since_last_crash = 30;
  background_duration_since_last_crash = 40;
  launches_since_last_crash = pos 7;
  sessions_since_last_crash = pos 9;
  crashed_this_launch = true;
}

printed : HasTexts ops math crashed
unfolding format_double finite_text check_write_result trim_fraction cut_zeros
printed = (refl, refl)

reset_state-Follows_example :
    let fields = saved_events ops math true 30 40 7 9 in
    (save_state ops math file beyond crashed (codes "{}")
      ≡ (true, object_text ops math [] true fields))
    × AfterReset ops math
        (Follows ops math true 30 40 7 9)
        (replay (callbacks ops math) fields [] (cleared ops math 100))
reset_state-Follows_example =
    reset_state-Follows ops math beyond crashed 100 7 9 (codes "{}") [] printed refl refl
      (omega arith) (omega arith)

object_text_test :
    object_text ops math [] true (saved_events ops math true 30 40 7 9)
    ≡ codes
        "{\n    \"version\": 1,\n    \"crashedLastLaunch\": true,\n    \"activeDurationSinceLastCrash\": 0.0,\n    \"backgroundDurationSinceLastCrash\": 0.0,\n    \"launchesSinceLastCrash\": 7,\n    \"sessionsSinceLastCrash\": 9\n}"
unfolding decimal_digits format_double finite_text trim_fraction cut_zeros
object_text_test = refl
