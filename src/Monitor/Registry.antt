-- ===== src/Monitor/Registry.antt =====
-- Sources/KSCrashRecordingCore/KSCrashMonitorRegistry.c, run by one thread at a time.
pub mod Slots
pub mod Sweep
use kscrash.Prelude.{
  ℕ, Bool, true, false, ◌&&◌, ◌||◌, not, List, [], ◌∷◌, Option, none, some, Bytes, ◌==◌,
  if◌then◌else◌,
}

-- A pointer to a `KSCrashMonitorAPI`. NULL is `none`.
abbrev pub Api : Type 0
Api = ℕ

-- The `apis` of a `KSCrashMonitorAPIList`; a hole is `none`.
abbrev pub Slots : Type 0
Slots = List (Option Api)

-- KSCRASH_MONITOR_API_COUNT.
abbrev pub monitor_api_count : ℕ
monitor_api_count = 100

abbrev pub is_api : Api → Option Api → Bool
is_api api none = false
is_api api (some x) = x == api

-- The first loop of `kscmr_addMonitor`.
pub data Placed : Type 0 where
  placed : Slots → Placed
  already full : Placed

abbrev pub Placed-cons : Option Api → Placed → Placed
Placed-cons slot (placed slots) = placed (slot ∷ slots)
Placed-cons slot already = already
Placed-cons slot full = full

unfoldable pub place : Api → Slots → Placed
place api [] = full
place api (none ∷ slots) = placed (some api ∷ slots)
place api (some x ∷ slots) =
    let later = place api slots in if x == api then already else Placed-cons (some x) later

-- The second loop: all copies but the first become holes.
unfoldable pub remove_duplicates : Api → Bool → Slots → Slots
remove_duplicates api found [] = []
remove_duplicates api found (slot ∷ slots) =
    (if found && is_api api slot then none else slot)
    ∷ remove_duplicates api (found || is_api api slot) slots

abbrev pub finish_add : Api → Slots → Placed → Bool × Slots
finish_add api old (placed slots) = (true, remove_duplicates api false slots)
finish_add api old already = (false, old)
finish_add api old full = (false, old)

-- `kscmr_addMonitor`.
unfoldable pub add_monitor : Slots → Option Api → Bool × Slots
add_monitor slots none = (false, slots)
add_monitor slots (some api) = finish_add api slots (place api slots)

-- What a registered monitor does, which is not part of the registry: `World` is all that the
-- monitors keep, and `Context` the event that they fill in.
pub record Monitors (World Context : Type 0) : Type 0 where
  pub monitor_id : Api → Bytes
  pub is_debugger_unsafe : Api → Bool
  pub set_enabled : Api → Bool → World → World
  pub is_enabled : Api → World → Bool
  pub notify_post_system_enable : Api → World → World
  pub add_contextual_info_to_event : Api → Context → World → Context × World

abbrev pub same_text : Bytes → Bytes → Bool
same_text [] [] = true
same_text (a ∷ as') (b ∷ bs) = a == b && same_text as' bs
same_text [] (b ∷ bs) = false
same_text (a ∷ as') [] = false

module _ {World Context : Type 0} (monitors : Monitors World Context) where
  open monitors use {
    monitor_id, is_debugger_unsafe, set_enabled, is_enabled, notify_post_system_enable,
    add_contextual_info_to_event,
  }

  -- The loop of `kscmr_removeMonitor`.
  unfoldable pub sweep_out : Api → Slots → World → Slots × World
  sweep_out api [] w = ([], w)
  sweep_out api (slot ∷ slots) w =
      let gone = is_api api slot in
      let (slots', w') = sweep_out api slots (if gone then set_enabled api false w else w) in
      ((if gone then none else slot) ∷ slots', w')

  unfoldable pub remove_monitor : Slots → Option Api → World → Slots × World
  remove_monitor slots none w = (slots, w)
  remove_monitor slots (some api) w = sweep_out api slots w

  -- The loop of `kscmr_getMonitor`.
  unfoldable pub find_monitor : Bytes → Slots → Option Api
  find_monitor name [] = none
  find_monitor name (none ∷ slots) = find_monitor name slots
  find_monitor name (some api ∷ slots) =
      let later = find_monitor name slots in
      if same_text (monitor_id api) name then some api else later

  unfoldable pub get_monitor : Slots → Option Bytes → Option Api
  get_monitor slots none = none
  get_monitor slots (some name) = find_monitor name slots

  -- The loops of `kscmr_activateMonitors`; `traced` is what `ksdebug_isBeingTraced` returned.
  unfoldable pub enable_all : Bool → Slots → Bool → World → Bool × World
  enable_all traced [] any w = (any, w)
  enable_all traced (none ∷ slots) any w = enable_all traced slots any w
  enable_all traced (some api ∷ slots) any w =
      let w' = set_enabled api (not (traced && is_debugger_unsafe api)) w in
      enable_all traced slots (any || is_enabled api w') w'

  unfoldable pub notify_all : Slots → World → World
  notify_all [] w = w
  notify_all (none ∷ slots) w = notify_all slots w
  notify_all (some api ∷ slots) w =
      notify_all slots (if is_enabled api w then notify_post_system_enable api w else w)

  unfoldable pub activate_monitors : Bool → Slots → World → Bool × World
  activate_monitors traced slots w =
      let (any, w') = enable_all traced slots false w in (any, notify_all slots w')

  unfoldable pub disable_all_monitors : Slots → World → World
  disable_all_monitors [] w = w
  disable_all_monitors (none ∷ slots) w = disable_all_monitors slots w
  disable_all_monitors (some api ∷ slots) w = disable_all_monitors slots (set_enabled api false w)

  unfoldable pub add_contextual_info : Slots → Context → World → Context × World
  add_contextual_info [] ctx w = (ctx, w)
  add_contextual_info (none ∷ slots) ctx w = add_contextual_info slots ctx w
  add_contextual_info (some api ∷ slots) ctx w =
      let r : Context × World =
        if is_enabled api w then add_contextual_info_to_event api ctx w else (ctx, w) in
      add_contextual_info slots r.0 r.1
