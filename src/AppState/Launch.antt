-- ===== src/AppState/Launch.antt =====
-- What the state file carries from one launch to the next.
use kscrash.Prelude.{
  ℕ, suc, ◌≤◌, ◌<◌, lt→ltb, ◌≡◌, refl, arith, Bool, true, false, [], Bytes, pos, ◌%◌, if◌then◌else◌,
}
use kscrash.Json.Encode.Number.{DoubleOps}
use kscrash.Json.Decode.Callbacks.{Beyond}
use kscrash.Json.Decode.Element.{Outcome, more}
use kscrash.Json.Event.{replay}
use kscrash.AppState.{
  Arithmetic, State, cleared, callbacks, to_int, on_boolean_element, on_floating_point_element,
  on_integer_element,
}
use kscrash.AppState.Notify.{reset_state, save_state}
use kscrash.AppState.Save.{file, object_text, saved_events, HasTexts, save_state-written}

-- A count that an `int` has room for.
abbrev pub int_max : ℕ
int_max = 2_147_483_647

to_int-small : (n : ℕ) → n ≤ int_max → to_int (pos n) ≡ pos n
unfolding to_int
to_int-small n h = let low : n % 4_294_967_296 ≡ n = omega (arith, h) in rw low (ground (arith, h))

module _ (ops : DoubleOps) (math : Arithmetic ops.Double) where
  -- The state of a launch behind one that crashed, or did not, with those counts and durations.
  abbrev pub Follows : Bool → ops.Double → ops.Double → ℕ → ℕ → State ops math → Type 0
  Follows crashed active background launches sessions s =
      (s.crashed_last_launch ≡ crashed)
      × (s.crashed_this_launch ≡ false)
      × (s.launches_since_last_crash ≡ pos (if crashed then 1 else suc launches))
      × (s.sessions_since_last_crash ≡ pos (if crashed then 1 else suc sessions))
      × (s.active_duration_since_last_crash ≡ (if crashed then math.nought else active))
      × (s.background_duration_since_last_crash ≡ (if crashed then math.nought else background))
      × (s.sessions_since_launch ≡ pos 1)

  abbrev pub AfterReset : (State ops math → Type 0) → Outcome (State ops math) → Type 0
  AfterReset P (more rest s) = P (reset_state ops math s)
  AfterReset P _ = ⊥

  Follows-replay :
      (crashed : Bool) (active background now : ops.Double) (launches sessions : ℕ) (rest : Bytes)
      → launches < int_max
      → sessions < int_max
      → AfterReset (Follows crashed active background launches sessions) (
          replay
            (callbacks ops math)
            (saved_events ops math crashed active background launches sessions)
            rest
            (cleared ops math now))
  unfolding replay reset_state cleared on_boolean_element on_floating_point_element
      on_integer_element
  Follows-replay true active background now launches sessions rest h k =
      (refl, refl, refl, refl, refl, refl, refl)
  Follows-replay false active background now launches sessions rest h k =
      rw
        (
          to_int-small launches (omega (arith, h)),
          to_int-small sessions (omega (arith, k)),
          lt→ltb launches int_max h,
          lt→ltb sessions int_max k,
        )
        (refl, refl, refl, refl, refl, refl, refl)

  -- What `saveState` leaves in the file, and what the next launch makes of it. Over any file,
  -- if every write succeeds, it leaves the text of the fields: one object, with a line for the
  -- version, whether the application has crashed in this launch, both durations and both counts
  -- since the last crash. A launch to which the decoder reports these fields, and which is then
  -- reset, counts launches and sessions on from the counts in the file, or from 1 if the last
  -- launch crashed; the durations go on from those in the file, or from zero. It knows whether the
  -- last launch crashed, and has not crashed itself. It supposes that the durations can be printed,
  -- that the counts are not negative and below the largest `int`, and that the decoder reports the
  -- durations as floating point.
  pub reset_state-Follows :
      (beyond : Beyond) (s : State ops math) (now : ops.Double) (launches sessions : ℕ)
      (kept rest : Bytes)
      → HasTexts ops math s
      → s.launches_since_last_crash ≡ pos launches
      → s.sessions_since_last_crash ≡ pos sessions
      → launches < int_max
      → sessions < int_max
      → let crashed = s.crashed_this_launch in
        let active = s.active_duration_since_last_crash in
        let background = s.background_duration_since_last_crash in
        let fields = saved_events ops math crashed active background launches sessions in
        (save_state ops math file beyond s kept ≡ (true, object_text ops math [] true fields))
        × AfterReset
            (Follows crashed active background launches sessions)
            (replay (callbacks ops math) fields rest (cleared ops math now))
  reset_state-Follows beyond s now launches sessions kept rest texts l k h m = (
    save_state-written ops math beyond s launches sessions kept texts l k (omega (arith, h))
        (omega (arith, m)),
    Follows-replay s.crashed_this_launch s.active_duration_since_last_crash
        s.background_duration_since_last_crash now launches sessions rest h m,
  )
