-- ===== src/Monitor/Tests.antt =====
-- Runs of the registry and of the exception handling on two monitors.
use kscrash.Prelude.{
  not, ◌&&◌, ◌≡◌, refl, Bool, true, false, [], ◌∷◌, none, some, codes, arith, ◌==◌, if◌then◌else◌,
  length,
}
use kscrash.Monitor.Registry.{Api, Slots, Monitors, add_monitor, remove_monitor, activate_monitors}
use kscrash.Monitor.Registry.Slots.{count, AddIs, add_monitor-AddIs}
use kscrash.Monitor.Registry.Sweep.{
  registered, some_runs, Responsive, runs, Obedient, Steady, count-remove_monitor,
  activate_monitors-is_enabled,
}
use kscrash.Monitor.Handling.{
  State, Context, Requirements, Environment, handling, exited, initial, empty_context,
  no_requirements, begin_handling_exception, end_handling_exception,
  is_thread_already_handling_an_exception, is_among, notify_exception, handle_exception,
}
use kscrash.Monitor.Handling.Threads.{IsValid, initial-IsValid}
use kscrash.Monitor.Handling.Table.{notify_exception-crash_loop}
use kscrash.Monitor.Handling.Cycle.{
  notify_exception-IsValid, handle_exception-IsValid, handle_exception-fatal,
  end_handling_exception-begin,
}

-- The world tells which monitors are on. Monitor 2 is unsafe under a debugger.
abbrev World : Type 0
World = Api → Bool

abbrev two : Monitors World Context
two = record {
  monitor_id = λ api. if api == 2 then codes "MachException" else codes "User";
  is_debugger_unsafe = λ api. api == 2;
  set_enabled = λ api on w other. if api == other then on else w other;
  is_enabled = λ api w. w api;
  notify_post_system_enable = λ api w. w;
  add_contextual_info_to_event = λ api ctx w. (ctx, w);
}

abbrev off : World
off api = false

abbrev system : Environment World
system = record { suspend = λ w. (3, w); resume = λ n w. w; sleep = λ w. w }

abbrev slots : Slots
slots = some 1 ∷ none ∷ some 2 ∷ []

obedient : Obedient two
obedient a b v w = refl

add_monitor-AddIs_example : AddIs 3 slots (add_monitor slots (some 3))
add_monitor-AddIs_example = add_monitor-AddIs 3 slots

count-remove_monitor_example :
    (count 1 (remove_monitor two slots (some 2) off).0 ≡ (if 2 == 1 then 0 else count 1 slots))
    × (length (remove_monitor two slots (some 2) off).0 ≡ length slots)
count-remove_monitor_example = count-remove_monitor two 2 1 slots off

-- A system in which monitor 1 cannot start.
abbrev starts : Api → Bool
starts api = not (api == 1)

abbrev lazy : Monitors World Context
lazy = record two {
  set_enabled = λ api on w other. if api == other then on && starts other else w other;
}

lazy-Responsive : Responsive lazy starts
lazy-Responsive a b v w = refl

lazy-Steady : Steady lazy
lazy-Steady a b w = refl

none_starts : (activate_monitors lazy false (some 1 ∷ []) off).0 ≡ false
unfolding activate_monitors kscrash.Monitor.Registry.enable_all
none_starts = refl

activate_monitors-is_enabled_example :
    ((activate_monitors lazy false slots off).1 2
      ≡ (if registered lazy 2 slots then runs lazy starts false 2 else off 2))
    × ((activate_monitors lazy false slots off).0 ≡ some_runs lazy starts false slots)
activate_monitors-is_enabled_example =
    activate_monitors-is_enabled lazy starts lazy-Responsive lazy-Steady false 2 slots off

abbrev start : State World
start = record initial { monitors = slots }

abbrev crash : Requirements
crash = record no_requirements {
  should_record_all_threads = true;
  should_write_report = true;
  is_fatal = true;
  async_safety = true;
}

start-IsValid : IsValid start
start-IsValid = initial-IsValid World slots

new :
    is_thread_already_handling_an_exception
      ((begin_handling_exception 7 start).threads_handling_exceptions)
      (start.handling_exception_index)
      7
      7
    ≡ false
unfolding is_thread_already_handling_an_exception is_among
new = refl

notify_exception-crash_loop_example :
    let first = notify_exception two system 7 7 crash start off in
    let second = notify_exception two system 7 7 crash (first.1) (first.2) in
    let third = notify_exception two system 7 7 crash (second.1) (second.2) in
    ((ctx : Context) × (second.0 ≡ handling ctx)
      × (ctx.requirements ≡ record crash {
        should_record_all_threads = false;
        is_fatal = true;
        async_safety = true;
        crashed_during_exception_handling = true;
      })
      × (second.2 ≡ first.2))
    × (third.0 ≡ exited)
notify_exception-crash_loop_example =
    notify_exception-crash_loop two system 7 7 7 7 crash crash crash start off start-IsValid
      (omega arith) refl new

notify_exception-IsValid_example : IsValid (notify_exception two system 7 8 crash start off).1
notify_exception-IsValid_example =
    notify_exception-IsValid two system 7 8 crash start off start-IsValid

handle_exception-IsValid_example :
    IsValid (handle_exception two system (some empty_context) start off).0
handle_exception-IsValid_example =
    handle_exception-IsValid two system empty_context start off (λ c v. refl) (λ a c v. refl)
      (omega arith) start-IsValid

handle_exception-fatal_example :
    (handle_exception two system (some (record empty_context { requirements = crash })) start off).1
      2
    ≡ false
handle_exception-fatal_example =
    handle_exception-fatal two system obedient (record empty_context { requirements = crash }) start
      off 2 refl (λ c v. refl) (λ a c v. refl) refl

end_handling_exception-begin_example :
    (end_handling_exception
      (start.handling_exception_index)
      (begin_handling_exception 7 start)).threads_handling_exceptions
    ≡ start.threads_handling_exceptions
end_handling_exception-begin_example =
    end_handling_exception-begin 7 start start-IsValid (omega arith)
