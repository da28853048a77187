-- ===== src/Monitor/Handling.antt =====
-- Sources/KSCrashRecordingCore/KSCrashMonitor.c, one call at a time: calls of several threads may
-- come in any order between `notify` and `handle`, but each runs to its end. Left out are the event
-- ids, the log lines and the thread interface of the atomics; `atomic_int` counts without a bound.
pub mod Threads
pub mod Table
pub mod Cycle
use kscrash.Prelude.{
  ℕ, zero, suc, ◌+◌, ◌-◌, min, Bool, true, false, ◌&&◌, ◌||◌, not, List, [], ◌∷◌, Option, none,
  some, Bytes, ltb, ◌==◌, if◌then◌else◌, length, set, take, replicate,
}
use kscrash.Monitor.Registry.{
  Api, Slots, Monitors, add_monitor, remove_monitor, activate_monitors, disable_all_monitors,
  add_contextual_info, monitor_api_count,
}

-- `KSCrash_ExceptionHandlingRequirements`.
pub record Requirements : Type 0 where
  pub should_record_all_threads : Bool
  pub should_write_report : Bool
  pub is_fatal : Bool
  pub async_safety : Bool
  pub async_safety_because_threads_suspended : Bool
  pub crashed_during_exception_handling : Bool
  pub should_exit_immediately : Bool

abbrev pub requires_async_safety : Requirements → Bool
requires_async_safety r = r.async_safety || r.async_safety_because_threads_suspended

-- The fields of `KSCrash_MonitorContext` that handling reads or writes.
pub record Context : Type 0 where
  pub requirements : Requirements
  pub thread_handler_index : ℕ
  pub is_heap_allocated : Bool
  pub suspended_threads_count : ℕ

abbrev pub no_requirements : Requirements
no_requirements = record {
  should_record_all_threads = false;
  should_write_report = false;
  is_fatal = false;
  async_safety = false;
  async_safety_because_threads_suspended = false;
  crashed_during_exception_handling = false;
  should_exit_immediately = false;
}

abbrev pub empty_context : Context
empty_context = record {
  requirements = no_requirements;
  thread_handler_index = 0;
  is_heap_allocated = false;
  suspended_threads_count = 0;
}

abbrev pub max_simultaneous_exceptions : ℕ
max_simultaneous_exceptions = 200

-- `g_state`. A thread is its port, and 0 marks a free slot.
pub record State (World : Type 0) : Type 0 where
  pub monitors : Slots
  pub crashed_during_handling : Bool
  pub is_handling_fatal_exception : Bool
  pub async_safe_context : Context × Context
  pub async_safe_context_index : ℕ
  pub exit_immediately_context : Context
  pub threads_handling_exceptions : List ℕ
  pub handling_exception_index : ℕ
  pub on_exception_event : Option (Context → World → Context × World)
  pub on_exception_event_with_result : Option (Context → World → Context × World)

-- What `init` leaves.
abbrev pub initial : {World : Type 0} → State World
initial = record {
  monitors = replicate monitor_api_count none;
  crashed_during_handling = false;
  is_handling_fatal_exception = false;
  async_safe_context = (empty_context, empty_context);
  async_safe_context_index = 0;
  exit_immediately_context = record empty_context {
    requirements = record no_requirements { should_exit_immediately = true };
  };
  threads_handling_exceptions = replicate max_simultaneous_exceptions 0;
  handling_exception_index = 0;
  on_exception_event = none;
  on_exception_event_with_result = none;
}

unfoldable pub is_among : List ℕ → ℕ → ℕ → Bool
is_among [] offending handling = false
is_among (t ∷ ts) offending handling =
    (t == handling || t == offending) || is_among ts offending handling

-- `isThreadAlreadyHandlingAnException`.
unfoldable pub is_thread_already_handling_an_exception : List ℕ → ℕ → ℕ → ℕ → Bool
is_thread_already_handling_an_exception threads max_count offending handling =
    is_among (take (min max_count max_simultaneous_exceptions) threads) offending handling

-- The scan of `endHandlingException`.
unfoldable pub are_all_free : List ℕ → Bool
are_all_free [] = true
are_all_free (t ∷ ts) = t == 0 && are_all_free ts

-- `asyncSafeContextAtIndex`: the index is masked to its last bit.
abbrev pub is_even : ℕ → Bool
is_even zero = true
is_even (suc n) = not (is_even n)

abbrev pub context_at : Bool → Context × Context → Context
context_at first contexts = if first then contexts.0 else contexts.1

abbrev pub put_context : Bool → Context → Context × Context → Context × Context
put_context first ctx contexts = if first then (ctx, contexts.1) else (contexts.0, ctx)

module _ {World : Type 0} where
  -- The handler's index is the counter before it.
  unfoldable pub begin_handling_exception : ℕ → State World → State World
  begin_handling_exception thread s =
      let index = s.handling_exception_index in
      record s {
        handling_exception_index = suc index;
        threads_handling_exceptions =
            (if ltb index max_simultaneous_exceptions
              then set (s.threads_handling_exceptions) index thread
              else s.threads_handling_exceptions);
      }

  -- The counter is what lies behind the array of threads, so a store at the index 200 clears it. No
  -- larger index comes from `notifyException`.
  unfoldable pub end_handling_exception : ℕ → State World → State World
  end_handling_exception index s =
      let threads = set (s.threads_handling_exceptions) index 0 in
      let counter : ℕ =
        if index == max_simultaneous_exceptions then 0 else s.handling_exception_index in
      record s {
        threads_handling_exceptions = threads;
        handling_exception_index = (if are_all_free threads then 0 else counter);
      }

  -- `getNextMonitorContext`, with what `notifyException` then writes to the context.
  unfoldable pub next_context : Requirements → ℕ → State World → Context × State World
  next_context r index s =
      let first = is_even (s.async_safe_context_index) in
      let ctx = record (context_at first (s.async_safe_context)) {
        requirements = r;
        thread_handler_index = index;
      } in
      if requires_async_safety r
      then (
        ctx,
        record s {
          async_safe_context_index = suc (s.async_safe_context_index);
          async_safe_context = put_context first ctx (s.async_safe_context);
        },
      )
      else (
        record empty_context {
          requirements = r;
          thread_handler_index = index;
          is_heap_allocated = true;
        },
        s,
      )

  -- The context is written through its pointer: one of the two in the state changes there.
  abbrev pub keep_context : Requirements → Bool → Context → State World → State World
  keep_context r first ctx s = record s {
    async_safe_context =
        (if requires_async_safety r
          then put_context first ctx (s.async_safe_context)
          else s.async_safe_context);
  }

module _ {World : Type 0} where
  -- `kscm_setEventCallback`; NULL is `none`.
  abbrev pub set_event_callback :
      Option (Context → World → Context × World) → State World → State World
  set_event_callback on_event s = record s { on_exception_event = on_event }

  -- `kscm_setEventCallbackWithResult`.
  abbrev pub set_event_callback_with_result :
      Option (Context → World → Context × World) → State World → State World
  set_event_callback_with_result on_event s = record s { on_exception_event_with_result = on_event }

-- What `notifyException` comes to: a context to handle, the special context to bail out with, or
-- the call of `_exit`, after which the process has ended.
pub data Notified : Type 0 where
  handling : Context → Notified
  bail_out : Context → Notified
  exited : Notified

-- The rest of the system, as the handlers use it: the first gives the number of threads suspended.
pub record Environment (World : Type 0) : Type 0 where
  pub suspend : World → ℕ × World
  pub resume : ℕ → World → World
  pub sleep : World → World

abbrev pub recrash : Requirements → Requirements
recrash r = record r {
  crashed_during_exception_handling = true;
  async_safety = true;
  should_record_all_threads = false;
  is_fatal = true;
}

module _ {World : Type 0} (monitors : Monitors World Context) (env : Environment World) where
  open env use {suspend, resume, sleep}

  abbrev pub disable : State World → World → World
  disable s w = disable_all_monitors monitors (s.monitors) w

  -- `notifyException` from the suspension of the other threads on.
  unfoldable pub suspend_threads : Context → World → Context × World
  suspend_threads ctx w =
      if ctx.requirements.should_record_all_threads
      then (let (n, w') = suspend w in
          let counted = record ctx { suspended_threads_count = n } in
          (
            if ltb 0 n
                then record counted {
                  requirements = record (ctx.requirements) {
                    async_safety_because_threads_suspended = true;
                  };
                }
                else counted,
            w',
          ))
      else (ctx, w)

  -- `notifyException` once the exception is to be handled.
  unfoldable pub start_handling :
      Bool → ℕ → Requirements → State World → World → Notified × State World × World
  start_handling is_crashed index r s w =
      let noted = record s {
        crashed_during_handling = s.crashed_during_handling || is_crashed;
        is_handling_fatal_exception = s.is_handling_fatal_exception || r.is_fatal;
      } in
      let (ctx, s') = next_context r index noted in
      let (ctx', w') = suspend_threads ctx w in
      (handling ctx', keep_context r (is_even (s.async_safe_context_index)) ctx' s', w')

  -- `notifyException`, on the thread `this`.
  unfoldable pub notify_exception :
      ℕ → ℕ → Requirements → State World → World → Notified × State World × World
  notify_exception offending this initial_requirements s w =
      let index = s.handling_exception_index in
      let s' = begin_handling_exception this s in
      let is_crashed =
        is_thread_already_handling_an_exception (s'.threads_handling_exceptions) index offending
          this in
      if ltb max_simultaneous_exceptions index
      then (bail_out (s.exit_immediately_context), s', disable s' w)
      else if is_crashed && s.crashed_during_handling
      then (exited, s', w)
      else if is_crashed
      then start_handling true index (recrash initial_requirements) s' w
      else start_handling false index initial_requirements s'
          (if s.is_handling_fatal_exception then sleep w else w)

  abbrev pub call_back :
      Option (Context → World → Context × World) → Context → World → Context × World
  call_back none ctx w = (ctx, w)
  call_back (some on_event) ctx w = on_event ctx w

  -- The callback with a result comes before the deprecated one.
  abbrev pub event_callback : State World → Option (Context → World → Context × World)
  event_callback s = elim (s.on_exception_event_with_result) [
    | none ↦ s.on_exception_event
    | some on_event ↦ some on_event
  ]

  -- `handleException`; NULL is `none`.
  unfoldable pub handle_exception : Option Context → State World → World → State World × World
  handle_exception none s w = (s, w)
  handle_exception (some ctx) s w =
      let (ctx', w') = add_contextual_info monitors (s.monitors) ctx w in
      let (last, w'') = call_back (event_callback s) ctx' w' in
      let resumed = resume (last.suspended_threads_count) w'' in
      (
        end_handling_exception (last.thread_handler_index) s,
        if last.requirements.is_fatal then disable s resumed else resumed,
      )

  -- `kscm_addMonitor`; `start` is the `init` function of the monitors.
  unfoldable pub kscm_add_monitor :
      (Api → World → World) → Option Api → State World → World → Bool × State World × World
  kscm_add_monitor start none s w = (false, s, w)
  kscm_add_monitor start (some api) s w =
      let (added, slots) = add_monitor (s.monitors) (some api) in
      (added, record s { monitors = slots }, if added then start api w else w)

  unfoldable pub kscm_remove_monitor : Option Api → State World → World → State World × World
  kscm_remove_monitor api s w =
      let (slots, w') = remove_monitor monitors (s.monitors) api w in
      (record s { monitors = slots }, w')

  unfoldable pub kscm_activate_monitors : Bool → State World → World → Bool × World
  kscm_activate_monitors traced s w = activate_monitors monitors traced (s.monitors) w
