-- ===== src/ModeExecutor/Runs.antt =====
-- The balance of callbacks through every call of user code and every event, and so through any run.
use px4_ros.Base.{
  ℕ, zero, suc, ◌≡◌, Bool, true, false, List, [], ◌∷◌, ◌==◌, if◌then◌else◌, arith, float_of, nan32,
  nan64, All,
}
use px4_ros.Px4Msgs.{Px4Msgs, VehicleStatus}
use px4_ros.WaitLoop.{Wait}
use px4_ros.CommandSender.{VehicleCommand, VehicleCommandAck}
use px4_ros.Registration.{mode_id_invalid}
use px4_ros.Mode.{Code}
use px4_ros.ModeExecutor.{
  Executor, Told, Callback, on_mode_completed, on_activate, on_deactivate, on_failsafe_deferred,
  DeactivateReason, failsafe_activated, other,
}
use px4_ros.ModeExecutor.Requests.{command_of, schedule_mode, takeoff, land, rtl}
use px4_ros.ModeExecutor.Status.{
  call_on_activate, call_on_deactivate, update_charge, user_switched, reactivate, notify_deferred,
  pass_to_mode, status_updated,
}
use px4_ros.ModeExecutor.Client.{
  Request, schedules, takes_off, lands, returns, arms, disarms, waits_ready, waits_disarmed,
  overrides, Script, run_request, run_requests, react,
}
use px4_ros.ModeExecutor.Callbacks.{
  BalancedBut, if-BalancedBut, IsBalanced, Fair, cancel_scheduled-BalancedBut,
  on_mode_completed-BalancedBut, cancel_wait-BalancedBut, update_wait-BalancedBut,
}
use px4_ros.ModeExecutor.Balance.{
  schedule_command-BalancedBut, arm-BalancedBut, disarm-BalancedBut, wait_ready_to_arm-BalancedBut,
  wait_until_disarmed-BalancedBut,
}

-- The ids of the modes that the executor schedules by itself are ids of modes.
pub record HasModes (c : Px4Msgs) : Type 0 where
  pub takeoff : (c.navigation_state_auto_takeoff == mode_id_invalid) ≡ false
  pub land : (c.navigation_state_auto_land == mode_id_invalid) ≡ false
  pub rtl : (c.navigation_state_auto_rtl == mode_id_invalid) ≡ false

-- A request schedules no mode that has no id.
abbrev pub IsValid : Request → Type 0
IsValid (schedules mode k forced) = (mode == mode_id_invalid) ≡ false
IsValid _ = Unit

module _ (tell : Told → Executor → Executor) (fair : Fair tell) (held : Callback → ℕ) where
  call_on_activate-BalancedBut :
      (s : Executor) → BalancedBut held s → BalancedBut held (call_on_activate tell s)
  unfolding call_on_activate
  call_on_activate-BalancedBut s h = fair held on_activate (record s { is_in_charge = true }) h

  call_on_deactivate-BalancedBut :
      (reason : DeactivateReason) (s : Executor)
      → BalancedBut held s
      → BalancedBut held (call_on_deactivate tell reason s)
  unfolding call_on_deactivate
  call_on_deactivate-BalancedBut reason s h =
      fair held (on_deactivate reason) _
        (cancel_wait-BalancedBut tell fair held _ (cancel_scheduled-BalancedBut tell fair held s h))

  update_charge-BalancedBut :
      (in_charge : Bool) (msg : VehicleStatus) (s : Executor)
      → BalancedBut held s
      → BalancedBut held (update_charge tell in_charge msg s)
  unfolding update_charge
  update_charge-BalancedBut in_charge msg s h =
      let reason = if msg.failsafe then failsafe_activated else other in
      let on = if s.is_in_charge then s else call_on_activate tell s in
      let off = if s.is_in_charge then call_on_deactivate tell reason s else s in
      if-BalancedBut held in_charge on off
        (if-BalancedBut held s.is_in_charge _ (call_on_activate tell s) h
          (call_on_activate-BalancedBut s h))
        (if-BalancedBut held s.is_in_charge (call_on_deactivate tell reason s) s
          (call_on_deactivate-BalancedBut reason s h) h)

  reactivate-BalancedBut :
      (got_activated : Bool) (msg : VehicleStatus) (s : Executor)
      → BalancedBut held s
      → BalancedBut held (reactivate tell got_activated msg s)
  unfolding reactivate
  reactivate-BalancedBut got_activated msg s h =
      let off = call_on_deactivate tell other s in
      if-BalancedBut held (user_switched tell got_activated msg s) (call_on_activate tell off) s
        (call_on_activate-BalancedBut off (call_on_deactivate-BalancedBut other s h)) h

  notify_deferred-BalancedBut :
      (c : Px4Msgs) (msg : VehicleStatus) (s : Executor)
      → BalancedBut held s
      → BalancedBut held (notify_deferred tell c msg s)
  unfolding notify_deferred
  notify_deferred-BalancedBut c msg s h =
      if-BalancedBut held _ _ _ (fair held on_failsafe_deferred s h) h

  pub status_updated-BalancedBut :
      (c : Px4Msgs) (code : Code) (now : ℕ) (msg : VehicleStatus) (s : Executor)
      → BalancedBut held s
      → BalancedBut held (status_updated tell c code now msg s)
  unfolding status_updated pass_to_mode
  status_updated-BalancedBut c code now msg s h = update_wait-BalancedBut tell fair held msg _ (
      notify_deferred-BalancedBut c msg _
        (reactivate-BalancedBut _ msg _ (update_charge-BalancedBut _ msg _ h)))

module _ (c : Px4Msgs) (acks : List VehicleCommand → ℕ → List (Wait VehicleCommandAck))
    (modes : HasModes c) where
  schedule_mode-BalancedBut :
      (tell : Told → Executor → Executor)
      → Fair tell
      → (held : Callback → ℕ) (mode : ℕ) (k : Callback) (forced : Bool) (s : Executor)
      → (mode == mode_id_invalid) ≡ false
      → BalancedBut held s
      → BalancedBut held (schedule_mode c acks tell mode k forced s)
  unfolding schedule_mode
  schedule_mode-BalancedBut tell fair held mode k forced s v h =
      schedule_command-BalancedBut c acks tell fair held mode
        (command_of c acks tell c.vehicle_cmd_set_nav_state (float_of mode) 0 0 0 0 0 0) k forced s
        v h

  run_request-BalancedBut :
      (tell : Told → Executor → Executor)
      → Fair tell
      → (held : Callback → ℕ) (r : Request) (s : Executor) → IsValid r
      → BalancedBut held s
      → BalancedBut held (run_request c acks tell r s)
  unfolding run_request takeoff land rtl
  run_request-BalancedBut tell fair held (schedules mode k forced) s v h =
      schedule_mode-BalancedBut tell fair held mode k forced s v h
  run_request-BalancedBut tell fair held (takes_off k altitude heading) s v h =
      schedule_command-BalancedBut c acks tell fair held c.navigation_state_auto_takeoff
        (command_of c acks tell c.vehicle_cmd_nav_takeoff nan32 nan32 nan32 heading nan64 nan64
          altitude)
        k false s modes.takeoff h
  run_request-BalancedBut tell fair held (lands k) s v h =
      schedule_mode-BalancedBut tell fair held c.navigation_state_auto_land k false s modes.land h
  run_request-BalancedBut tell fair held (returns k) s v h =
      schedule_mode-BalancedBut tell fair held c.navigation_state_auto_rtl k false s modes.rtl h
  run_request-BalancedBut tell fair held (arms k b) s v h =
      arm-BalancedBut c acks tell fair held k b s h
  run_request-BalancedBut tell fair held (disarms k b) s v h =
      disarm-BalancedBut c acks tell fair held k b s h
  run_request-BalancedBut tell fair held (waits_ready k) s v h =
      wait_ready_to_arm-BalancedBut c acks tell fair held k s h
  run_request-BalancedBut tell fair held (waits_disarmed k) s v h =
      wait_until_disarmed-BalancedBut c acks tell fair held k s h
  run_request-BalancedBut tell fair held (overrides r) s v h = h

  run_requests-BalancedBut :
      (tell : Told → Executor → Executor)
      → Fair tell
      → (held : Callback → ℕ) (rs : List Request) (s : Executor) → All IsValid rs
      → BalancedBut held s
      → BalancedBut held (run_requests c acks tell rs s)
  unfolding run_requests
  run_requests-BalancedBut tell fair held [] s v h = h
  run_requests-BalancedBut tell fair held (r ∷ rs) s (v, vs) h =
      run_requests-BalancedBut tell fair held rs _ vs
        (run_request-BalancedBut tell fair held r s v h)

  module _ (script : Script) (valid : (t : Told) (s : Executor) → All IsValid (script t s)) where
    react-Fair : (fuel : ℕ) → Fair (react c acks fuel script)
    unfolding react
    react-Fair zero held t s h = h
    react-Fair (suc fuel) held t s h =
        run_requests-BalancedBut (react c acks fuel script) (react-Fair fuel) held (script t s) s
          (valid t s) h

-- What happens to an executor: a vehicle status, a message that a mode completed, a call.
pub data Event : Type 0 where
  gets_status : ℕ → VehicleStatus → Event
  gets_completed : ℕ → ℕ → Event
  gets_request : Request → Event

abbrev pub IsValidEvent : Event → Type 0
IsValidEvent (gets_request r) = IsValid r
IsValidEvent _ = Unit

module _ (c : Px4Msgs) (acks : List VehicleCommand → ℕ → List (Wait VehicleCommandAck))
    (code : Code) (fuel : ℕ) (script : Script) where
  unfoldable pub run_event : Event → Executor → Executor
  run_event (gets_status now msg) s = status_updated (react c acks fuel script) c code now msg s
  run_event (gets_completed nav_state result) s =
      on_mode_completed (react c acks fuel script) nav_state result s
  run_event (gets_request r) s = run_request c acks (react c acks fuel script) r s

  unfoldable pub run_events : List Event → Executor → Executor
  run_events [] s = s
  run_events (e ∷ es) s = run_events es (run_event e s)

  module _ (modes : HasModes c) (valid : (t : Told) (s : Executor) → All IsValid (script t s)) where
    run_event-BalancedBut :
        (held : Callback → ℕ) (e : Event) (s : Executor)
        → IsValidEvent e
        → BalancedBut held s
        → BalancedBut held (run_event e s)
    unfolding run_event
    run_event-BalancedBut held (gets_status now msg) s v h =
        status_updated-BalancedBut (react c acks fuel script)
          (react-Fair c acks modes script valid fuel) held c code now msg s h
    run_event-BalancedBut held (gets_completed nav_state result) s v h =
        on_mode_completed-BalancedBut (react c acks fuel script)
          (react-Fair c acks modes script valid fuel) held nav_state result s h
    run_event-BalancedBut held (gets_request r) s v h =
        run_request-BalancedBut c acks modes (react c acks fuel script)
          (react-Fair c acks modes script valid fuel) held r s v h

    -- Start from a state in which each completion callback was handed in as often as it was called
    -- and is waited for. User code is any script of calls, run to any depth, that schedules only
    -- modes with an id, on an autopilot whose own modes have one; then any vehicle statuses, mode
    -- completions and calls happen. As long as no assertion of the code failed, each callback was
    -- still handed in exactly as often as it was called and is waited for: none is lost and none
    -- is called twice.
    pub run_events-IsBalanced :
        (es : List Event) (s : Executor)
        → All IsValidEvent es
        → IsBalanced s
        → IsBalanced (run_events es s)
    unfolding run_events
    run_events-IsBalanced [] s v h = h
    run_events-IsBalanced (e ∷ es) s (v, vs) h = run_events-IsBalanced es (run_event e s) vs (λ k a.
        omega (arith, run_event-BalancedBut (λ j. 0) e s v (λ j b. omega (arith, h j b)) k a))
