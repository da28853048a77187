-- ===== src/AppState/Notify.antt =====
-- The functions of KSCrashMonitor_AppState.c that change the state, and its file.
use kscrash.Prelude.{Bool, true, false, not, none, some, codes, pos, ◌==◌, if◌then◌else◌}
use kscrash.Json.Codes.{ksjson_ok, ksjson_error_cannot_add_data}
use kscrash.Json.Encode.Context.{Call, Sink, ◌>>◌}
use kscrash.Json.Encode.Number.{DoubleOps}
use kscrash.Json.Encode.Element.{
  begin_encode, begin_object, add_boolean_element, add_integer_element, add_floating_point_element,
  end_encode,
}
use kscrash.Json.Decode.Callbacks.{Beyond}
use kscrash.AppState.{increment, Arithmetic, Storage, State, cleared, load_text}

module _ (ops : DoubleOps) (math : Arithmetic ops.Double) where
  -- `kscrashstate_reset` in front of the save.
  abbrev pub forget_crash : State ops math → State ops math
  forget_crash s = record s {
    active_duration_since_last_crash = math.nought;
    background_duration_since_last_crash = math.nought;
    launches_since_last_crash = pos 0;
    sessions_since_last_crash = pos 0;
  }

  unfoldable pub reset_state : State ops math → State ops math
  reset_state s =
      let s' = if s.crashed_last_launch then forget_crash s else s in
      record s' {
        sessions_since_launch = pos 1;
        active_duration_since_launch = math.nought;
        background_duration_since_launch = math.nought;
        crashed_this_launch = false;
        launches_since_last_crash = increment (s'.launches_since_last_crash);
        sessions_since_last_crash = increment (s'.sessions_since_last_crash);
        application_is_in_foreground = true;
      }

  abbrev pub add_active : ops.Double → State ops math → State ops math
  add_active duration s = record s {
    active_duration_since_launch = math.plus (s.active_duration_since_launch) duration;
    active_duration_since_last_crash = math.plus (s.active_duration_since_last_crash) duration;
  }

  abbrev pub add_background : ops.Double → State ops math → State ops math
  add_background duration s = record s {
    background_duration_since_launch = math.plus (s.background_duration_since_launch) duration;
    background_duration_since_last_crash =
        math.plus (s.background_duration_since_last_crash) duration;
  }

  -- `updateAppState` reads the clock twice.
  unfoldable pub update_app_state : ops.Double → ops.Double → State ops math → State ops math
  update_app_state now later s =
      let duration = math.minus now (s.app_state_transition_time) in
      let s' = record s { app_state_transition_time = later } in
      if s.application_is_active
      then add_active duration s'
      else if not (s.application_is_in_foreground)
      then add_background duration s'
      else s'

  -- `kscrashstate_notifyAppActive`, by `g_isEnabled` first.
  unfoldable pub notify_app_active : Bool → Bool → ops.Double → State ops math → State ops math
  notify_app_active false is_active now s = s
  notify_app_active true true now s = record s {
    application_is_active = true;
    app_state_transition_time = now;
  }
  notify_app_active true false now s =
      add_active (math.minus now (s.app_state_transition_time))
        (record s { application_is_active = false })

  module _ {World : Type 0} (storage : Storage World) (beyond : Beyond) where
    -- `loadState`.
    unfoldable pub load_state : World → State ops math → Bool × State ops math
    load_state w s = load_text ops math beyond (storage.read_entire_file w) s

    -- `addJSONData`.
    abbrev pub file_sink : Sink World
    file_sink bytes w =
        let (success, w') = storage.write bytes w in
        (if success then ksjson_ok else ksjson_error_cannot_add_data, w')

    abbrev pub save_fields : State ops math → Call World
    save_fields s =
        begin_object file_sink none
        >> add_integer_element file_sink (some (codes "version")) (pos 1)
        >> add_boolean_element file_sink (some (codes "crashedLastLaunch")) (s.crashed_this_launch)
        >> add_floating_point_element ops file_sink (some (codes "activeDurationSinceLastCrash"))
            (s.active_duration_since_last_crash)
        >> add_floating_point_element ops file_sink
            (some (codes "backgroundDurationSinceLastCrash"))
            (s.background_duration_since_last_crash)
        >> add_integer_element file_sink (some (codes "launchesSinceLastCrash"))
            (s.launches_since_last_crash)
        >> add_integer_element file_sink (some (codes "sessionsSinceLastCrash"))
            (s.sessions_since_last_crash)
        >> end_encode file_sink

    abbrev pub save_opened : State ops math → Bool × World → Bool × World
    save_opened s (false, w) = (false, w)
    save_opened s (true, w) =
        let (result, c) = save_fields s (begin_encode true w) in (result == ksjson_ok, c.user_data)

    -- `saveState`.
    unfoldable pub save_state : State ops math → World → Bool × World
    save_state s w = save_opened s (storage.open_truncated w)

    -- `kscrashstate_initialize`.
    unfoldable pub initialize : ops.Double → World → State ops math
    initialize now w = (load_state w (cleared ops math now)).1

    -- `kscrashstate_reset`.
    unfoldable pub reset : Bool → State ops math → World → State ops math × Bool × World
    reset false s w = (s, false, w)
    reset true s w = let s' = reset_state s in let (saved, w') = save_state s' w in (s', saved, w')

    -- `setEnabled`: `g_isEnabled` and the state after it.
    unfoldable pub set_enabled :
        Bool → Bool → State ops math → World → Bool × State ops math × World
    set_enabled true false s w = let (s', saved, w') = reset true s w in (true, s', w')
    set_enabled true true s w = (true, s, w)
    set_enabled false enabled s w = (false, s, w)

    -- `kscrashstate_notifyAppInForeground`, `...Terminate` and `...Crash`.
    unfoldable pub notify_app_in_foreground :
        Bool → Bool → ops.Double → State ops math → World → State ops math × World
    notify_app_in_foreground false is_in_foreground now s w = (s, w)
    notify_app_in_foreground true true now s w =
        let s' = add_background (math.minus now (s.app_state_transition_time)) s in
        (
          record s' {
            application_is_in_foreground = true;
            sessions_since_last_crash = increment (s.sessions_since_last_crash);
            sessions_since_launch = increment (s.sessions_since_launch);
          },
          w,
        )
    notify_app_in_foreground true false now s w =
        let s' = record s {
          application_is_in_foreground = false;
          app_state_transition_time = now;
        } in
        (s', (save_state s' w).1)

    unfoldable pub notify_app_terminate :
        Bool → ops.Double → ops.Double → State ops math → World → State ops math × World
    notify_app_terminate false now later s w = (s, w)
    notify_app_terminate true now later s w =
        let s' = update_app_state now later s in (s', (save_state s' w).1)

    unfoldable pub notify_app_crash :
        Bool → ops.Double → ops.Double → State ops math → World → State ops math × World
    notify_app_crash false now later s w = (s, w)
    notify_app_crash true now later s w =
        let s' = record (update_app_state now later s) { crashed_this_launch = true } in
        (s', (save_state s' w).1)
