-- ===== src/Monitor/Handling/Table.antt =====
-- What `notifyException` decides when exceptions follow one another.
use kscrash.Prelude.{
  ℕ, suc, ◌≤◌, ◌<◌, min, ◌≡◌, refl, ap, ◌∙◌, inl, inr, Bool, true, false, ◌||◌, some, arith, ltb,
  if◌then◌else◌, get_elem?, Bool-cases, lt→ltb, ltb-eq_false,
}
use kscrash.Monitor.Registry.{Monitors}
use kscrash.Monitor.Handling.{
  State, Context, Requirements, requires_async_safety, Environment, handling, exited, recrash,
  is_thread_already_handling_an_exception, begin_handling_exception, next_context, suspend_threads,
  start_handling, notify_exception, max_simultaneous_exceptions,
}
use kscrash.Monitor.Handling.Threads.{IsValid, get_or-set_same, get_elem-set_other, is_among-take}

module _ {World : Type 0} where
  -- The thread has begun to handle an exception, and not ended.
  abbrev Handles : ℕ → State World → Type 0
  Handles t s =
      (i : ℕ) × (i < s.handling_exception_index)
      × (i < max_simultaneous_exceptions)
      × (get_elem? (s.threads_handling_exceptions) i ≡ some t)

  abbrev IsSame : State World → State World → Type 0
  IsSame s s' =
      (s'.threads_handling_exceptions ≡ s.threads_handling_exceptions)
      × (s'.handling_exception_index ≡ s.handling_exception_index)
      × (s'.crashed_during_handling ≡ s.crashed_during_handling)
      × (s'.is_handling_fatal_exception ≡ s.is_handling_fatal_exception)
      × (s'.monitors ≡ s.monitors)

  next_context-IsSame :
      (r : Requirements) (index : ℕ) (s : State World)
      → IsSame s (next_context r index s).1
        × ((next_context r index s).0.requirements ≡ r)
        × ((next_context r index s).0.thread_handler_index ≡ index)
  unfolding next_context
  next_context-IsSame r index s = elim (Bool-cases (requires_async_safety r)) [
    | inl needs ↦ rw needs ((refl, refl, refl, refl, refl), refl, refl)
    | inr free ↦ rw free ((refl, refl, refl, refl, refl), refl, refl)
  ]

  begin-Handles :
      (t : ℕ) (s : State World)
      → IsValid s
      → s.handling_exception_index < max_simultaneous_exceptions
      → Handles t (begin_handling_exception t s)
  unfolding begin_handling_exception
  begin-Handles t s (len, free) h = (
    s.handling_exception_index,
    omega arith,
    h,
    rw (lt→ltb (s.handling_exception_index) max_simultaneous_exceptions h) (
        get_or-set_same (s.threads_handling_exceptions) (s.handling_exception_index) t
          (omega (arith, len, h))),
  )

  get_elem-begin :
      (t u i : ℕ) (s : State World)
      → i < s.handling_exception_index
      → get_elem? (s.threads_handling_exceptions) i ≡ some t
      → get_elem? ((begin_handling_exception u s).threads_handling_exceptions) i ≡ some t
  unfolding begin_handling_exception
  get_elem-begin t u i s h e =
      elim (Bool-cases (ltb (s.handling_exception_index) max_simultaneous_exceptions)) [
        | inl below ↦ rw below (
            get_elem-set_other (s.threads_handling_exceptions) (s.handling_exception_index) i u
              (λ same. omega (arith, same, h))
            ∙ e)
        | inr above ↦ rw above e
      ]

  begin-Handles_also :
      (t u : ℕ) (s : State World) → Handles t s → Handles t (begin_handling_exception u s)
  unfolding begin_handling_exception
  begin-Handles_also t u s (i, h, k, e) = (i, omega (arith, h), k, get_elem-begin t u i s h e)

  Handles-already :
      (t offending u : ℕ) (s : State World)
      → Handles t s
      → is_thread_already_handling_an_exception
          ((begin_handling_exception u s).threads_handling_exceptions)
          (s.handling_exception_index)
          offending
          t
        ≡ true
  unfolding is_thread_already_handling_an_exception
  Handles-already t offending u s (i, h, k, e) =
      is_among-take ((begin_handling_exception u s).threads_handling_exceptions)
        (min (s.handling_exception_index) max_simultaneous_exceptions) i t offending
        (omega (arith, h, k)) (get_elem-begin t u i s h e)

  module _ (monitors : Monitors World Context) (env : Environment World) where
    pub start_handling-IsSame :
        (is_crashed : Bool) (index : ℕ) (r : Requirements) (s : State World) (w : World)
        → ((start_handling monitors env is_crashed index r s w).1.threads_handling_exceptions
            ≡ s.threads_handling_exceptions)
          × ((start_handling monitors env is_crashed index r s w).1.handling_exception_index
              ≡ s.handling_exception_index)
          × ((start_handling monitors env is_crashed index r s w).1.crashed_during_handling
              ≡ (s.crashed_during_handling || is_crashed))
          × ((start_handling monitors env is_crashed index r s w).1.is_handling_fatal_exception
              ≡ (s.is_handling_fatal_exception || r.is_fatal))
    unfolding start_handling
    start_handling-IsSame is_crashed index r s w =
        let same = next_context-IsSame r index (record s {
          crashed_during_handling = s.crashed_during_handling || is_crashed;
          is_handling_fatal_exception = s.is_handling_fatal_exception || r.is_fatal;
        }) in
        (same.0.0, same.0.1, same.0.2, same.0.3)

    normal :
        (offending this : ℕ) (r : Requirements) (s : State World) (w : World)
        → s.handling_exception_index ≤ max_simultaneous_exceptions
        → is_thread_already_handling_an_exception
            ((begin_handling_exception this s).threads_handling_exceptions)
            (s.handling_exception_index)
            offending
            this
          ≡ false
        → notify_exception monitors env offending this r s w
          ≡ start_handling monitors env false
              (s.handling_exception_index)
              r
              (begin_handling_exception this s)
              (if s.is_handling_fatal_exception then env.sleep w else w)
    unfolding notify_exception
    normal offending this r s w h calm =
        rw (ltb-eq_false max_simultaneous_exceptions (s.handling_exception_index) h, calm) refl

    recrashed :
        (offending this : ℕ) (r : Requirements) (s : State World) (w : World)
        → s.handling_exception_index ≤ max_simultaneous_exceptions
        → Handles this s
        → s.crashed_during_handling ≡ false
        → notify_exception monitors env offending this r s w
          ≡ start_handling monitors env true
              (s.handling_exception_index)
              (recrash r)
              (begin_handling_exception this s)
              w
    unfolding notify_exception
    recrashed offending this r s w h handles calm =
        rw
          (
            ltb-eq_false max_simultaneous_exceptions (s.handling_exception_index) h,
            Handles-already this offending this s handles,
            calm,
          )
          refl

    looping :
        (offending this : ℕ) (r : Requirements) (s : State World) (w : World)
        → s.handling_exception_index ≤ max_simultaneous_exceptions
        → Handles this s
        → s.crashed_during_handling ≡ true
        → (notify_exception monitors env offending this r s w).0 ≡ exited
    unfolding notify_exception
    looping offending this r s w h handles crashed =
        rw
          (
            ltb-eq_false max_simultaneous_exceptions (s.handling_exception_index) h,
            Handles-already this offending this s handles,
            crashed,
          )
          refl

    suspend_threads-alone :
        (ctx : Context) (w : World)
        → ctx.requirements.should_record_all_threads ≡ false
        → suspend_threads monitors env ctx w ≡ (ctx, w)
    unfolding suspend_threads
    suspend_threads-alone ctx w h = rw h

    start_handling-context :
        (is_crashed : Bool) (index : ℕ) (r : Requirements) (s : State World) (w : World)
        → r.should_record_all_threads ≡ false
        → (ctx : Context) × ((start_handling monitors env is_crashed index r s w).0 ≡ handling ctx)
          × (ctx.requirements ≡ r)
          × (ctx.thread_handler_index ≡ index)
          × ((start_handling monitors env is_crashed index r s w).2 ≡ w)
    unfolding start_handling
    start_handling-context is_crashed index r s w alone =
        let noted = record s {
          crashed_during_handling = s.crashed_during_handling || is_crashed;
          is_handling_fatal_exception = s.is_handling_fatal_exception || r.is_fatal;
        } in
        let same = next_context-IsSame r index noted in
        let next = (next_context r index noted).0 in
        let left =
          suspend_threads-alone next w (ap (λ q. q.should_record_all_threads) (same.1) ∙ alone) in
        (next, ap (λ p. handling (p.0)) left, same.1, same.2, ap (λ p. p.1) left)

    Handles-same :
        (t : ℕ) (s s' : State World)
        → s'.threads_handling_exceptions ≡ s.threads_handling_exceptions
        → s'.handling_exception_index ≡ s.handling_exception_index
        → Handles t s
        → Handles t s'
    Handles-same t s s' threads index (i, h, k, e) =
        (i, omega (arith, index, h), k, ap (λ ts. get_elem? ts i) threads ∙ e)

    abbrev IsReady : ℕ → ℕ → Bool → State World → Type 0
    IsReady t n crashed s =
        Handles t s × (s.handling_exception_index ≡ n) × (s.crashed_during_handling ≡ crashed)

    start_handling-IsReady :
        (is_crashed : Bool) (t : ℕ) (r : Requirements) (s : State World) (w : World)
        → Handles t (begin_handling_exception t s)
        → s.crashed_during_handling ≡ false
        → IsReady t
            (suc (s.handling_exception_index))
            is_crashed
            (start_handling monitors env is_crashed
              (s.handling_exception_index)
              r
              (begin_handling_exception t s)
              w).1
    unfolding begin_handling_exception
    start_handling-IsReady is_crashed t r s w handles calm =
        let begun = begin_handling_exception t s in
        let index = s.handling_exception_index in
        let same = start_handling-IsSame is_crashed index r begun w in
        (
          Handles-same t begun (start_handling monitors env is_crashed index r begun w).1 (same.0)
              (same.1) handles,
          same.1,
          same.2 ∙ ap (λ b. b || is_crashed) calm,
        )

    -- Three exceptions on one thread, none of whose handlers has ended, the first of them in a
    -- state with no crashed handler, whose counter leaves at least two slots, on a thread that
    -- handles none. The second is handled as a crash of the handler: the requirements of its
    -- context are those given, but asynchronously safe, fatal, not recording all threads, and
    -- marked as a crash during handling; and it suspends no threads. The third ends the process.
    pub notify_exception-crash_loop :
        (o1 o2 o3 this : ℕ) (r1 r2 r3 : Requirements) (s : State World) (w : World)
        → IsValid s
        → suc (suc (s.handling_exception_index)) ≤ max_simultaneous_exceptions
        → s.crashed_during_handling ≡ false
        → is_thread_already_handling_an_exception
            ((begin_handling_exception this s).threads_handling_exceptions)
            (s.handling_exception_index)
            o1
            this
          ≡ false
        → let first = notify_exception monitors env o1 this r1 s w in
          let second = notify_exception monitors env o2 this r2 (first.1) (first.2) in
          let third = notify_exception monitors env o3 this r3 (second.1) (second.2) in
          ((ctx : Context) × (second.0 ≡ handling ctx)
            × (ctx.requirements ≡ record r2 {
              should_record_all_threads = false;
              is_fatal = true;
              async_safety = true;
              crashed_during_exception_handling = true;
            })
            × (second.2 ≡ first.2))
          × (third.0 ≡ exited)
    notify_exception-crash_loop o1 o2 o3 this r1 r2 r3 s w valid room calm new =
        let index = s.handling_exception_index in
        let start1 =
          start_handling monitors env false index r1 (begin_handling_exception this s)
            (if s.is_handling_fatal_exception then env.sleep w else w) in
        let ready1 =
          start_handling-IsReady false this r1 s
            (if s.is_handling_fatal_exception then env.sleep w else w)
            (begin-Handles this s valid (omega (arith, room))) calm in
        let start2 =
          start_handling monitors env true (start1.1.handling_exception_index) (recrash r2)
            (begin_handling_exception this (start1.1)) (start1.2) in
        let ready2 =
          start_handling-IsReady true this (recrash r2) (start1.1) (start1.2)
            (begin-Handles_also this this (start1.1) (ready1.0)) (ready1.2) in
        let context2 =
          start_handling-context true (start1.1.handling_exception_index) (recrash r2)
            (begin_handling_exception this (start1.1)) (start1.2) refl in
        rw (normal o1 this r1 s w (omega (arith, room)) new) (
          rw
            (recrashed o2 this r2 (start1.1) (start1.2) (omega (arith, ready1.1, room)) (ready1.0)
              (ready1.2))
            (
              (context2.0, context2.1, context2.2, context2.4),
              looping o3 this r3 (start2.1) (start2.2) (omega (arith, ready1.1, ready2.1, room))
                  (ready2.0) (ready2.2),
            ))
