-- ===== src/Monitor/Registry/Sweep.antt =====
-- What removing, finding and activating do, over any monitors.
use kscrash.Prelude.{
  suc, ◌≤◌, ◌≡◌, refl, ap, ◌∙◌, inl, inr, Bool, true, false, ◌&&◌, ◌||◌, not, [], ◌∷◌, Option, none,
  some, Bytes, arith, ◌==◌, if◌then◌else◌, length, Bool-cases, ==_refl,
}
use kscrash.Monitor.Registry.{
  Api, Slots, is_api, Monitors, same_text, sweep_out, remove_monitor, find_monitor, get_monitor,
  enable_all, notify_all, activate_monitors, disable_all_monitors,
}
use kscrash.Monitor.Registry.Slots.{count}

module _ {World Context : Type 0} (monitors : Monitors World Context) where
  open monitors use {
    monitor_id, is_debugger_unsafe, set_enabled, is_enabled, notify_post_system_enable,
  }

  count-sweep_out :
      (api other : Api) (slots : Slots) (w : World)
      → count other (sweep_out monitors api slots w).0
        ≡ (if api == other then 0 else count other slots)
  unfolding sweep_out
  count-sweep_out api other [] w = ground arith
  count-sweep_out api other (none ∷ slots) w = ground (arith, count-sweep_out api other slots w)
  count-sweep_out api other (some x ∷ slots) w = ground (
    arith,
    count-sweep_out api other slots w,
    count-sweep_out api other slots (set_enabled api false w),
  )

  length-sweep_out :
      (api : Api) (slots : Slots) (w : World)
      → length (sweep_out monitors api slots w).0 ≡ length slots
  unfolding sweep_out
  length-sweep_out api [] w = refl
  length-sweep_out api (slot ∷ slots) w =
      ap suc (length-sweep_out api slots (if is_api api slot then set_enabled api false w else w))

  -- After `kscmr_removeMonitor` no copy of the monitor is left, every other monitor stands there
  -- as often as before, and the array has the same size.
  pub count-remove_monitor :
      (api other : Api) (slots : Slots) (w : World)
      → (count other (remove_monitor monitors slots (some api) w).0
          ≡ (if api == other then 0 else count other slots))
        × (length (remove_monitor monitors slots (some api) w).0 ≡ length slots)
  unfolding remove_monitor
  count-remove_monitor api other slots w =
      (count-sweep_out api other slots w, length-sweep_out api slots w)

  -- No registered monitor has this identifier.
  abbrev pub NoneNamed : Bytes → Slots → Type 0
  NoneNamed name [] = Unit
  NoneNamed name (none ∷ slots) = NoneNamed name slots
  NoneNamed name (some api ∷ slots) =
      (same_text (monitor_id api) name ≡ false) × NoneNamed name slots

  abbrev pub FindIs : Bytes → Slots → Option Api → Type 0
  FindIs name slots none = NoneNamed name slots
  FindIs name slots (some api) = (1 ≤ count api slots) × (same_text (monitor_id api) name ≡ true)

  FindIs-skip :
      (name : Bytes) (x : Api) (slots : Slots) (r : Option Api)
      → same_text (monitor_id x) name ≡ false
      → FindIs name slots r
      → FindIs name (some x ∷ slots) r
  FindIs-skip name x slots none ne h = (ne, h)
  FindIs-skip name x slots (some api) ne h = (omega (arith, h.0), h.1)

  FindIs-hole :
      (name : Bytes) (slots : Slots) (r : Option Api)
      → FindIs name slots r
      → FindIs name (none ∷ slots) r
  FindIs-hole name slots none h = h
  FindIs-hole name slots (some api) h = (omega (arith, h.0), h.1)

  -- `kscmr_getMonitor` returns a registered monitor with that identifier, and NULL only if there
  -- is none.
  get_monitor-FindIs :
      (slots : Slots) (name : Bytes) → FindIs name slots (get_monitor monitors slots (some name))
  unfolding get_monitor find_monitor
  get_monitor-FindIs [] name = tt
  get_monitor-FindIs (none ∷ slots) name =
      FindIs-hole name slots (find_monitor monitors name slots) (get_monitor-FindIs slots name)
  get_monitor-FindIs (some api ∷ slots) name = elim (Bool-cases (same_text (monitor_id api) name)) [
    | inl same ↦ rw same (ground arith, same)
    | inr differs ↦ rw differs (
        FindIs-skip name api slots (find_monitor monitors name slots) differs
          (get_monitor-FindIs slots name))
  ]

  -- The monitors report what they were last set to, and no other.
  abbrev pub Obedient : Type 0
  Obedient =
      (a b : Api) (v : Bool) (w : World)
      → is_enabled a (set_enabled b v w) ≡ (if b == a then v else is_enabled a w)

  abbrev pub registered : Api → Slots → Bool
  registered api [] = false
  registered api (slot ∷ slots) = is_api api slot || registered api slots

  -- Whether a monitor should run: under a debugger the unsafe ones should not.
  abbrev pub should_enable : Bool → Api → Bool
  should_enable traced api = not (traced && is_debugger_unsafe api)

  -- A monitor that is turned on may fail to start, by `starts`; off it goes always. No other
  -- monitor changes.
  abbrev pub Responsive : (Api → Bool) → Type 0
  Responsive starts =
      (a b : Api) (v : Bool) (w : World)
      → is_enabled a (set_enabled b v w) ≡ (if b == a then v && starts a else is_enabled a w)

  -- Whether a monitor runs once it has been activated.
  abbrev pub runs : (Api → Bool) → Bool → Api → Bool
  runs starts traced api = should_enable traced api && starts api

  enable_all-is_enabled :
      (starts : Api → Bool) (respond : Responsive starts) (traced : Bool) (api : Api)
      (slots : Slots) (any : Bool) (w : World)
      → is_enabled api (enable_all monitors traced slots any w).1
        ≡ (if registered api slots then runs starts traced api else is_enabled api w)
  unfolding enable_all
  enable_all-is_enabled starts respond traced api [] any w = refl
  enable_all-is_enabled starts respond traced api (none ∷ slots) any w =
      enable_all-is_enabled starts respond traced api slots any w
  enable_all-is_enabled starts respond traced api (some x ∷ slots) any w =
      let w' = set_enabled x (should_enable traced x) w in
      enable_all-is_enabled starts respond traced api slots (any || is_enabled x w') w'
      ∙ ap (λ t. if registered api slots then runs starts traced api else t)
          (respond api x (should_enable traced x) w)
      ∙ choose traced api x (starts api) (registered api slots) (is_enabled api w)
    where
      choose :
          (traced : Bool) (api x : Api) (start later current : Bool)
          → (if later
              then should_enable traced api && start
              else (if x == api then should_enable traced x && start else current))
            ≡ (if (x == api) || later then should_enable traced api && start else current)
      choose traced api x start later current = grind arith

  -- The monitors' `notifyPostSystemEnable` turns no monitor on or off.
  abbrev pub Steady : Type 0
  Steady = (a b : Api) (w : World) → is_enabled a (notify_post_system_enable b w) ≡ is_enabled a w

  notify_all-is_enabled :
      (steady : Steady) (api : Api) (slots : Slots) (w : World)
      → is_enabled api (notify_all monitors slots w) ≡ is_enabled api w
  unfolding notify_all
  notify_all-is_enabled steady api [] w = refl
  notify_all-is_enabled steady api (none ∷ slots) w = notify_all-is_enabled steady api slots w
  notify_all-is_enabled steady api (some x ∷ slots) w = elim (Bool-cases (is_enabled x w)) [
    | inl on ↦
        rw on
          (notify_all-is_enabled steady api slots (notify_post_system_enable x w) ∙ steady api x w)
    | inr off ↦ rw off (notify_all-is_enabled steady api slots w)
  ]

  -- Whether a registered monitor runs once it has been activated.
  abbrev pub some_runs : (Api → Bool) → Bool → Slots → Bool
  some_runs starts traced [] = false
  some_runs starts traced (none ∷ slots) = some_runs starts traced slots
  some_runs starts traced (some api ∷ slots) =
      runs starts traced api || some_runs starts traced slots

  or_false : (a : Bool) → a ≡ (a || false)
  or_false a = ground arith

  or_assoc : (a b c : Bool) → ((a || b) || c) ≡ (a || (b || c))
  or_assoc a b c = ground arith

  enable_all-any :
      (starts : Api → Bool) (respond : Responsive starts) (traced : Bool) (slots : Slots)
      (any : Bool) (w : World)
      → (enable_all monitors traced slots any w).0 ≡ (any || some_runs starts traced slots)
  unfolding enable_all
  enable_all-any starts respond traced [] any w = or_false any
  enable_all-any starts respond traced (none ∷ slots) any w =
      enable_all-any starts respond traced slots any w
  enable_all-any starts respond traced (some x ∷ slots) any w =
      let w' = set_enabled x (should_enable traced x) w in
      enable_all-any starts respond traced slots (any || is_enabled x w') w'
      ∙ rw (respond x x (should_enable traced x) w, ==_refl x)
          (or_assoc any (runs starts traced x) (some_runs starts traced slots))

  -- After `kscmr_activateMonitors` each registered monitor that can start is on, but under a
  -- debugger the unsafe ones are off, and no other monitor has changed. The result tells whether
  -- any registered monitor is on, not whether one should be: it is false where none of them could
  -- start. It supposes that turning a monitor on or off changes no other, that a monitor reports
  -- that it is on if and only if it was turned on last and could start, and that the monitors'
  -- notifyPostSystemEnable turns none on or off.
  pub activate_monitors-is_enabled :
      (starts : Api → Bool) (respond : Responsive starts) (steady : Steady) (traced : Bool)
      (api : Api) (slots : Slots) (w : World)
      → (is_enabled api (activate_monitors monitors traced slots w).1
          ≡ (if registered api slots then runs starts traced api else is_enabled api w))
        × ((activate_monitors monitors traced slots w).0 ≡ some_runs starts traced slots)
  unfolding activate_monitors
  activate_monitors-is_enabled starts respond steady traced api slots w = (
    notify_all-is_enabled steady api slots (enable_all monitors traced slots false w).1
        ∙ enable_all-is_enabled starts respond traced api slots false w,
    enable_all-any starts respond traced slots false w,
  )

  -- After `kscmr_disableAllMonitors` each registered monitor is off, and no other has changed.
  pub disable_all-is_enabled :
      (obey : Obedient) (api : Api) (slots : Slots) (w : World)
      → is_enabled api (disable_all_monitors monitors slots w)
        ≡ (if registered api slots then false else is_enabled api w)
  unfolding disable_all_monitors
  disable_all-is_enabled obey api [] w = refl
  disable_all-is_enabled obey api (none ∷ slots) w = disable_all-is_enabled obey api slots w
  disable_all-is_enabled obey api (some x ∷ slots) w =
      disable_all-is_enabled obey api slots (set_enabled x false w)
      ∙ ap (λ t. if registered api slots then false else t) (obey api x false w)
      ∙ choose (registered api slots) (x == api) (is_enabled api w)
    where
      choose :
          (later same current : Bool)
          → (if later then false else (if same then false else current))
            ≡ (if same || later then false else current)
      choose later same current = ground arith
