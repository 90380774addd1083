-- ===== src/ModeExecutor.antt =====
-- px4_ros2_cpp/src/components/mode_executor.cpp: the executor that owns a mode, schedules modes on
-- the autopilot, and calls back when they finish. A completion callback is a number that names it.
-- `tell` runs user code (the virtual methods and the callbacks), which may call the executor again
-- before it returns: every operation takes it as an argument, and ModeExecutor/Client.antt closes
-- the recursion. `acks` is the environment of the command sender. A failed `assert` is recorded and
-- the code goes on, as in a release build.
pub mod Requests
pub mod Registering
pub mod Status
pub mod Client
pub mod Charge
pub mod Callbacks
pub mod Balance
pub mod Runs
use px4_ros.Base.{
  ℕ, ◌+◌, Bool, true, false, not, ◌&&◌, List, [], ◌∷◌, Option, none, some, ◌==◌, if◌then◌else◌,
  has_value,
}
use px4_ros.Px4Msgs.{Px4Msgs, VehicleStatus}
use px4_ros.WaitLoop.{Wait}
use px4_ros.CommandSender.{
  Result, success, deactivated, VehicleCommand, VehicleCommandAck, send_command_sync, to_result,
}
use px4_ros.Registration.{Registration, mode_id_invalid}
use px4_ros.Overrides.{ConfigOverrides}
use px4_ros.Mode.{Mode}

-- `Settings::Activation`
pub data Activation : Type 0 where
  activate_only_when_armed activate_always activate_immediately : Activation

pub data DeactivateReason : Type 0 where
  failsafe_activated other : DeactivateReason

-- The conditions that a vehicle status is waited for.
pub data Condition : Type 0 where
  until_armed until_disarmed until_ready_to_arm : Condition

abbrev pub Callback : Type 0
Callback = ℕ

-- What user code is told: the virtual methods, and the completion callbacks.
pub data Told : Type 0 where
  on_activate on_failsafe_deferred : Told
  on_deactivate : DeactivateReason → Told
  on_completed : Callback → Result → Told

pub record Executor : Type 0 where
  pub activation : Activation
  pub registration : Registration
  pub owned_mode : Mode
  -- `_current_scheduled_mode`: the mode and its callback, if it is active.
  pub scheduled_mode : Option (ℕ × Callback)
  -- `_current_wait_vehicle_status`.
  pub wait_vehicle_status : Option (Condition × Callback)
  pub is_in_charge : Bool
  pub is_armed : Bool
  pub was_never_activated : Bool
  pub prev_nav_state : ℕ
  pub prev_failsafe_defer_state : ℕ
  pub config_overrides : ConfigOverrides
  -- The commands sent, the callbacks handed in, and those called, the latest first.
  pub commands : List VehicleCommand
  pub requested : List Callback
  pub called : List Callback
  pub asserts_hold : Bool

-- `id()`
abbrev pub executor_id : Executor → ℕ
executor_id s = s.registration.unregister_ext_component.mode_executor_id

abbrev pub is_success : Result → Bool
is_success success = true
is_success _ = false

module _ (c : Px4Msgs) (acks : List VehicleCommand → ℕ → List (Wait VehicleCommandAck)) where
  -- `sendCommandSync`: the result, and the state with the command recorded.
  pub send_command : VehicleCommand → Executor → Result × Executor
  send_command cmd s =
      ((send_command_sync c cmd (acks s.commands)).0, record s { commands = cmd ∷ s.commands })

-- The check callbacks: two of them read the executor's state, one the message.
unfoldable pub condition_holds : Condition → VehicleStatus → Executor → Bool
condition_holds until_armed msg s = s.is_armed
condition_holds until_disarmed msg s = not s.is_armed
condition_holds until_ready_to_arm msg s = msg.pre_flight_checks_pass

module _ (tell : Told → Executor → Executor) where
  -- A call of a completion callback.
  pub call_back : Callback → Result → Executor → Executor
  call_back k result s = tell (on_completed k result) (record s { called = k ∷ s.called })

  -- `ScheduledMode::cancel`: the state is reset before the call.
  unfoldable pub cancel_scheduled : Executor → Executor
  cancel_scheduled s = elim s.scheduled_mode [
    | none ↦ s
    | some (mode, k) ↦ call_back k deactivated (record s { scheduled_mode = none })
  ]

  -- The subscription to `ModeCompleted` messages.
  unfoldable pub on_mode_completed : ℕ → ℕ → Executor → Executor
  on_mode_completed nav_state result s = elim s.scheduled_mode [
    | none ↦ s
    | some (mode, k) ↦
        if nav_state == mode
        then call_back k (to_result result) (record s { scheduled_mode = none })
        else s
  ]

  -- `WaitForVehicleStatusCondition::cancel`.
  unfoldable pub cancel_wait : Executor → Executor
  cancel_wait s = elim s.wait_vehicle_status [
    | none ↦ s
    | some (condition, k) ↦ call_back k deactivated (record s { wait_vehicle_status = none })
  ]

  -- `WaitForVehicleStatusCondition::update`.
  unfoldable pub update_wait : VehicleStatus → Executor → Executor
  update_wait msg s = elim s.wait_vehicle_status [
    | none ↦ s
    | some (condition, k) ↦
        if condition_holds condition msg s
        then call_back k success (record s { wait_vehicle_status = none })
        else s
  ]

-- `ScheduledMode::activate`, with its `assert(!active())`. The invalid id stays inactive.
unfoldable pub activate_scheduled : ℕ → Callback → Executor → Executor
activate_scheduled mode k s = record s {
  scheduled_mode = if mode == mode_id_invalid then none else some (mode, k);
  asserts_hold = s.asserts_hold && not (has_value s.scheduled_mode);
}

-- `WaitForVehicleStatusCondition::activate`, with its assertion.
unfoldable pub activate_wait : Condition → Callback → Executor → Executor
activate_wait condition k s = record s {
  wait_vehicle_status = some (condition, k);
  asserts_hold = s.asserts_hold && not (has_value s.wait_vehicle_status);
}
