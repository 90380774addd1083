-- ===== src/ModeExecutor/Charge.antt =====
-- Whether the executor is in charge after a vehicle status, whatever user code does meanwhile.
use px4_ros.Base.{
  ℕ, zero, suc, ◌≡◌, refl, ◌∙◌, Bool, true, false, not, ◌&&◌, List, [], ◌∷◌, none, if◌then◌else◌,
  float_of, nan32, nan64, Option-cases, inl, inr,
}
use px4_ros.Px4Msgs.{Px4Msgs, VehicleStatus}
use px4_ros.WaitLoop.{Wait}
use px4_ros.CommandSender.{
  Result, success, rejected, deactivated, VehicleCommand, VehicleCommandAck,
}
use px4_ros.ModeExecutor.{
  Executor, Told, Callback, Condition, until_armed, until_disarmed, call_back, cancel_scheduled,
  activate_wait, activate_scheduled, on_completed, is_success, send_command,
}
use px4_ros.ModeExecutor.Requests.{
  request_callback, command_of, schedule_command, schedule_mode, takeoff, land, rtl, arm, disarm,
  wait_ready_to_arm, wait_until_disarmed,
}
use px4_ros.ModeExecutor.Client.{
  Request, schedules, takes_off, lands, returns, arms, disarms, waits_ready, waits_disarmed,
  overrides, Script, run_request, run_requests, react,
}

-- What user code cannot change.
pub record Charge : Type 0 where
  pub in_charge : Bool
  pub armed : Bool
  pub nav_state : ℕ
  pub failsafe_defer_state : ℕ

abbrev pub charge : Executor → Charge
charge s = record {
  in_charge = s.is_in_charge;
  armed = s.is_armed;
  nav_state = s.prev_nav_state;
  failsafe_defer_state = s.prev_failsafe_defer_state;
}

abbrev charged : Bool → Charge → Charge
charged b v = record v { in_charge = b }

abbrev recorded : VehicleStatus → Charge → Charge
recorded msg v = record v {
  nav_state = msg.nav_state;
  failsafe_defer_state = msg.failsafe_defer_state;
}

abbrev pub Tame : (Told → Executor → Executor) → Type 0
Tame tell = (t : Told) (s : Executor) → charge (tell t s) ≡ charge s

charge-if :
    (b : Bool) (x y : Executor) (v : Charge)
    → charge x ≡ v
    → charge y ≡ v
    → charge (if b then x else y) ≡ v
charge-if true x y v p q = p
charge-if false x y v p q = q

module _ (tell : Told → Executor → Executor) (tame : Tame tell) where
  charge-call_back :
      (k : Callback) (r : Result) (s : Executor) → charge (call_back tell k r s) ≡ charge s
  unfolding call_back
  charge-call_back k r s = tame (on_completed k r) (record s { called = k ∷ s.called })

  charge-cancel_scheduled : (s : Executor) → charge (cancel_scheduled tell s) ≡ charge s
  unfolding cancel_scheduled
  charge-cancel_scheduled s = elim (Option-cases s.scheduled_mode) [
    | inl e ↦ rw (e, cancel_scheduled) refl
    | inr ((mode, k), e) ↦
        rw (e, cancel_scheduled)
          (charge-call_back k deactivated (record s { scheduled_mode = none }))
  ]

  -- The calls of user code.
  charge-schedule_command :
      (c : Px4Msgs) (acks : List VehicleCommand → ℕ → List (Wait VehicleCommandAck)) (mode : ℕ)
      (cmd : Executor → VehicleCommand) (k : Callback) (forced : Bool) (s : Executor)
      → charge (schedule_command c acks tell mode cmd k forced s) ≡ charge s
  unfolding schedule_command send_command activate_scheduled
  charge-schedule_command c acks mode cmd k forced s =
      let a = request_callback k s in
      let b = cancel_scheduled tell a in
      let sent = send_command c acks (cmd b) b in
      let cancelled = charge-cancel_scheduled a in
      charge-if (not s.is_armed && not forced) _ _ (charge s) (charge-call_back k rejected a) (
        charge-if (is_success sent.0) _ _ (charge s) cancelled
          (charge-call_back k sent.0 sent.1 ∙ cancelled))

  charge-schedule_mode :
      (c : Px4Msgs) (acks : List VehicleCommand → ℕ → List (Wait VehicleCommandAck)) (mode : ℕ)
      (k : Callback) (forced : Bool) (s : Executor)
      → charge (schedule_mode c acks tell mode k forced s) ≡ charge s
  unfolding schedule_mode
  charge-schedule_mode c acks mode k forced s =
      charge-schedule_command c acks mode
        (command_of c acks tell c.vehicle_cmd_set_nav_state (float_of mode) 0 0 0 0 0 0) k forced s

  charge-after_arming :
      (condition : Condition) (k : Callback) (r : Result) (s : Executor)
      → charge (if is_success r then activate_wait condition k s else call_back tell k r s)
        ≡ charge s
  unfolding activate_wait
  charge-after_arming condition k r s =
      charge-if (is_success r) _ _ (charge s) refl (charge-call_back k r s)

  charge-run_request :
      (c : Px4Msgs) (acks : List VehicleCommand → ℕ → List (Wait VehicleCommandAck)) (r : Request)
      (s : Executor)
      → charge (run_request c acks tell r s) ≡ charge s
  unfolding run_request takeoff land rtl arm disarm wait_ready_to_arm wait_until_disarmed
      activate_wait send_command
  charge-run_request c acks (schedules mode k forced) s =
      charge-schedule_mode c acks mode k forced s
  charge-run_request c acks (takes_off k altitude heading) s =
      charge-schedule_command c acks c.navigation_state_auto_takeoff
        (command_of c acks tell c.vehicle_cmd_nav_takeoff nan32 nan32 nan32 heading nan64 nan64
          altitude)
        k false s
  charge-run_request c acks (lands k) s =
      charge-schedule_mode c acks c.navigation_state_auto_land k false s
  charge-run_request c acks (returns k) s =
      charge-schedule_mode c acks c.navigation_state_auto_rtl k false s
  charge-run_request c acks (arms k b) s =
      charge-if s.is_armed _ _ (charge s) (charge-call_back k success (request_callback k s))
        (charge-after_arming until_armed k _ _)
  charge-run_request c acks (disarms k b) s =
      charge-if (not s.is_armed) _ _ (charge s) (charge-call_back k success (request_callback k s))
        (charge-after_arming until_disarmed k _ _)
  charge-run_request c acks (waits_ready k) s =
      charge-if s.is_armed _ _ (charge s) (charge-call_back k success (request_callback k s)) refl
  charge-run_request c acks (waits_disarmed k) s =
      charge-if (not s.is_armed) _ _ (charge s) (charge-call_back k success (request_callback k s))
        refl
  charge-run_request c acks (overrides r) s = refl

  charge-run_requests :
      (c : Px4Msgs) (acks : List VehicleCommand → ℕ → List (Wait VehicleCommandAck))
      (rs : List Request) (s : Executor)
      → charge (run_requests c acks tell rs s) ≡ charge s
  unfolding run_requests
  charge-run_requests c acks [] s = refl
  charge-run_requests c acks (r ∷ rs) s =
      charge-run_requests c acks rs (run_request c acks tell r s) ∙ charge-run_request c acks r s

-- No script of calls can change them.
pub react-Tame :
    (c : Px4Msgs) (acks : List VehicleCommand → ℕ → List (Wait VehicleCommandAck)) (fuel : ℕ)
    (script : Script)
    → Tame (react c acks fuel script)
unfolding react
react-Tame c acks zero script t s = refl
react-Tame c acks (suc fuel) script t s =
    charge-run_requests (react c acks fuel script) (react-Tame c acks fuel script) c acks
      (script t s) s
