-- ===== src/Monitor/Handling/Cycle.antt =====
-- From `notify` to `handle`: what an exception that is handled leaves behind.
use kscrash.Prelude.{
  ℕ, ◌<◌, ◌≡◌, refl, ap, ◌∙◌, Bool, true, false, ◌&&◌, [], ◌∷◌, none, some, arith, ltb,
  if◌then◌else◌, length, get_or, if-both, lt→ltb,
}
use kscrash.Monitor.Registry.{Api, Slots, Monitors, add_contextual_info}
use kscrash.Monitor.Registry.Sweep.{Obedient, registered, disable_all-is_enabled}
use kscrash.Monitor.Handling.{
  State, Context, Requirements, Environment, Notified, begin_handling_exception,
  end_handling_exception, start_handling, notify_exception, event_callback, call_back, recrash,
  is_thread_already_handling_an_exception, handle_exception, max_simultaneous_exceptions,
}
use kscrash.Monitor.Handling.Threads.{
  IsValid, begin_handling_exception-IsValid, end_handling_exception-IsValid, set-set,
}
use kscrash.Monitor.Handling.Table.{start_handling-IsSame}

module _ {World : Type 0} where
  IsValid-same :
      (s s' : State World)
      → s'.threads_handling_exceptions ≡ s.threads_handling_exceptions
      → s'.handling_exception_index ≡ s.handling_exception_index
      → IsValid s
      → IsValid s'
  IsValid-same s s' threads index (len, free) = (
    ap length threads ∙ len,
    λ i h. ap (λ ts. get_or ts i 0) threads ∙ free i (omega (arith, h, index)),
  )

  -- In a state in order with a free slot, beginning to handle an exception and ending it gives the
  -- list of threads back.
  pub end_handling_exception-begin :
      (t : ℕ) (s : State World)
      → IsValid s
      → s.handling_exception_index < max_simultaneous_exceptions
      → (end_handling_exception
          (s.handling_exception_index)
          (begin_handling_exception t s)).threads_handling_exceptions
        ≡ s.threads_handling_exceptions
  unfolding end_handling_exception begin_handling_exception
  end_handling_exception-begin t s (len, free) h =
      rw (lt→ltb (s.handling_exception_index) max_simultaneous_exceptions h) (
        set-set (s.threads_handling_exceptions) (s.handling_exception_index) t
          (free (s.handling_exception_index) (omega arith)))

  module _ (monitors : Monitors World Context) (env : Environment World) where
    -- `notifyException` keeps the list of threads in order, whatever it decides: it has 200 slots,
    -- and none at or above the counter is taken, so that no thread loses its slot to another.
    pub notify_exception-IsValid :
        (offending this : ℕ) (r : Requirements) (s : State World) (w : World)
        → IsValid s
        → IsValid (notify_exception monitors env offending this r s w).1
    unfolding notify_exception
    notify_exception-IsValid offending this r s w valid =
        if-both Fine (ltb max_simultaneous_exceptions (s.handling_exception_index)) begun (
          if-both Fine (is_crashed && s.crashed_during_handling) begun (
            if-both Fine is_crashed (started true (recrash r) w)
              (started false r (if s.is_handling_fatal_exception then env.sleep w else w))))
      where
        Fine : Notified × State World × World → Type 0
        Fine result = IsValid (result.1)

        s' : State World
        s' = begin_handling_exception this s

        is_crashed : Bool
        is_crashed =
            is_thread_already_handling_an_exception (s'.threads_handling_exceptions)
              (s.handling_exception_index) offending this

        begun : IsValid s'
        begun = begin_handling_exception-IsValid this s valid

        started :
            (c : Bool) (q : Requirements) (v : World)
            → IsValid (start_handling monitors env c (s.handling_exception_index) q s' v).1
        started c q v =
            let next = start_handling monitors env c (s.handling_exception_index) q s' v in
            let same = start_handling-IsSame monitors env c (s.handling_exception_index) q s' v in
            IsValid-same s' (next.1) (same.0) (same.1) begun

    -- What no monitor changes in an event, collecting the contextual information does not change.
    add_contextual_info-keeps :
        {A : Type 0} (part : Context → A)
        → ((a : Api) (c : Context) (v : World)
            → part (monitors.add_contextual_info_to_event a c v).0 ≡ part c)
        → (slots : Slots) (c : Context) (v : World)
        → part (add_contextual_info monitors slots c v).0 ≡ part c
    unfolding add_contextual_info
    add_contextual_info-keeps part adds [] c v = refl
    add_contextual_info-keeps part adds (none ∷ slots) c v =
        add_contextual_info-keeps part adds slots c v
    add_contextual_info-keeps part adds (some api ∷ slots) c v =
        let on = monitors.is_enabled api v in
        let next : Context × World =
          if on then monitors.add_contextual_info_to_event api c v else (c, v) in
        add_contextual_info-keeps part adds slots (next.0) (next.1)
        ∙ if-both (λ (r : Context × World). part (r.0) ≡ part c) on (adds api c v) refl

    -- `handleException` keeps the list of threads in order, for a context whose slot lies in the
    -- array, below 200. It supposes that neither the contextual information nor the callback
    -- changes the slot.
    pub handle_exception-IsValid :
        (ctx : Context) (s : State World) (w : World)
        → ((c : Context) (v : World)
            → (call_back monitors env (event_callback monitors env s) c v).0.thread_handler_index
              ≡ c.thread_handler_index)
        → ((a : Api) (c : Context) (v : World)
            → (monitors.add_contextual_info_to_event a c v).0.thread_handler_index
              ≡ c.thread_handler_index)
        → ctx.thread_handler_index < max_simultaneous_exceptions
        → IsValid s
        → IsValid (handle_exception monitors env (some ctx) s w).0
    unfolding handle_exception
    handle_exception-IsValid ctx s w keeps adds inside valid =
        let collected = add_contextual_info monitors (s.monitors) ctx w in
        let last =
          call_back monitors env (event_callback monitors env s) (collected.0) (collected.1) in
        let same =
          keeps (collected.0) (collected.1)
          ∙ add_contextual_info-keeps (λ c. c.thread_handler_index) adds (s.monitors) ctx w in
        end_handling_exception-IsValid (last.0.thread_handler_index) s (omega (arith, same, inside))
          valid

    -- Once a fatal exception is handled every registered monitor is off. It supposes that monitors
    -- report what they were last set to, and that neither the contextual information nor the
    -- callback makes the event less than fatal.
    pub handle_exception-fatal :
        (obey : Obedient monitors) (ctx : Context) (s : State World) (w : World) (api : Api)
        → registered monitors api (s.monitors) ≡ true
        → ((c : Context) (v : World)
            → (call_back monitors env (event_callback monitors env s) c v).0.requirements.is_fatal
              ≡ c.requirements.is_fatal)
        → ((a : Api) (c : Context) (v : World)
            → (monitors.add_contextual_info_to_event a c v).0.requirements.is_fatal
              ≡ c.requirements.is_fatal)
        → ctx.requirements.is_fatal ≡ true
        → monitors.is_enabled api (handle_exception monitors env (some ctx) s w).1 ≡ false
    unfolding handle_exception
    handle_exception-fatal obey ctx s w api in_slots keeps adds fatal =
        let collected = add_contextual_info monitors (s.monitors) ctx w in
        let last =
          call_back monitors env (event_callback monitors env s) (collected.0) (collected.1) in
        rw
          (keeps (collected.0) (collected.1)
            ∙ add_contextual_info-keeps (λ c. c.requirements.is_fatal) adds (s.monitors) ctx w
            ∙ fatal)
          (disable_all-is_enabled monitors obey api (s.monitors)
              (env.resume (last.0.suspended_threads_count) (last.1))
            ∙ rw in_slots refl)
