-- ===== src/ModeExecutor/Status.antt =====
-- px4_ros2_cpp/src/components/mode_executor.cpp: the handling of a vehicle status. The executor
-- decides first whether it is in charge and tells user code, and then hands the status to its mode.
use px4_ros.Base.{
  ℕ, Bool, true, false, not, ◌&&◌, ◌||◌, Option, none, some, ◌==◌, if◌then◌else◌, has_value,
}
use px4_ros.Px4Msgs.{Px4Msgs, VehicleStatus}
use px4_ros.Mode
use px4_ros.Mode.{Code}
use px4_ros.Mode.Activation.{vehicle_status_updated}
use px4_ros.ModeExecutor.{
  Executor, Told, Callback, Activation, activate_always, activate_immediately, DeactivateReason,
  failsafe_activated, other, on_activate, on_deactivate, on_failsafe_deferred, executor_id,
  cancel_scheduled, cancel_wait, update_wait,
}

abbrev pub is_immediate : Activation → Bool
is_immediate activate_immediately = true
is_immediate _ = false

abbrev pub is_always : Activation → Bool
is_always activate_always = true
is_always _ = false

-- `Some mode is scheduled` and its id.
abbrev pub scheduled_is : Option (ℕ × Callback) → (ℕ → Bool) → Bool
scheduled_is none test = false
scheduled_is (some (mode, k)) test = test mode

-- The executor that a status puts in charge, as computed before anything else changes.
unfoldable pub puts_in_charge : Px4Msgs → VehicleStatus → Executor → Bool
puts_in_charge c msg s =
    executor_id s == msg.executor_in_charge
    && (msg.arming_state == c.arming_state_armed
        || (is_immediate s.activation && s.was_never_activated)
        || is_always s.activation)

module _ (tell : Told → Executor → Executor) where
  unfoldable pub call_on_activate : Executor → Executor
  call_on_activate s = tell on_activate (record s { is_in_charge = true })

  unfoldable pub call_on_deactivate : DeactivateReason → Executor → Executor
  call_on_deactivate reason s =
      let a = cancel_wait tell (cancel_scheduled tell s) in
      tell (on_deactivate reason) (record a { is_in_charge = false; was_never_activated = false })

  -- The change of the charge.
  unfoldable pub update_charge : Bool → VehicleStatus → Executor → Executor
  update_charge in_charge msg s =
      if in_charge
      then (if s.is_in_charge then s else call_on_activate s)
      else (if s.is_in_charge
          then call_on_deactivate (if msg.failsafe then failsafe_activated else other) s
          else s)

  -- Whether the user switched from the scheduled mode to the owned one.
  abbrev pub user_switched : Bool → VehicleStatus → Executor → Bool
  user_switched got_activated msg s =
      not got_activated
      && s.is_in_charge
      && scheduled_is s.scheduled_mode (λ mode. mode == s.prev_nav_state)
      && msg.nav_state == Mode.id s.owned_mode
      && not (s.prev_nav_state == msg.nav_state)
      && s.is_armed

  -- The executor stays in charge then, and is activated again.
  unfoldable pub reactivate : Bool → VehicleStatus → Executor → Executor
  reactivate got_activated msg s =
      if user_switched got_activated msg s then call_on_activate (call_on_deactivate other s) else s

  unfoldable pub notify_deferred : Px4Msgs → VehicleStatus → Executor → Executor
  notify_deferred c msg s =
      if s.is_in_charge
        && not (s.prev_failsafe_defer_state == msg.failsafe_defer_state)
        && msg.failsafe_defer_state == c.failsafe_defer_state_would_failsafe
      then tell on_failsafe_deferred s
      else s

  -- The mode is not activated for the moment while another mode is scheduled, or just after arming.
  abbrev pub holds_mode_back : Bool → Executor → Bool
  holds_mode_back changed_to_armed s =
      (scheduled_is s.scheduled_mode (λ mode. not (Mode.id s.owned_mode == mode))
        || (changed_to_armed && has_value s.wait_vehicle_status))
      && s.is_in_charge

  unfoldable pub pass_to_mode : Px4Msgs → Code → ℕ → Bool → VehicleStatus → Executor → Executor
  pass_to_mode c code now changed_to_armed msg s = record s {
    owned_mode =
        vehicle_status_updated c code now msg (holds_mode_back changed_to_armed s) s.owned_mode;
  }

  unfoldable pub status_updated : Px4Msgs → Code → ℕ → VehicleStatus → Executor → Executor
  status_updated c code now msg s0 =
      let was_armed = s0.is_armed in
      let armed = msg.arming_state == c.arming_state_armed in
      let s1 = record s0 { is_armed = armed } in
      let in_charge = puts_in_charge c msg s1 in
      let got_activated = in_charge && not s1.is_in_charge in
      let s2 = update_charge in_charge msg s1 in
      let s3 = reactivate got_activated msg s2 in
      let s4 = notify_deferred c msg s3 in
      let s5 = record s4 { prev_failsafe_defer_state = msg.failsafe_defer_state } in
      let s6 = pass_to_mode c code now (not was_armed && armed) msg s5 in
      let s7 = record s6 { prev_nav_state = msg.nav_state } in update_wait tell msg s7
