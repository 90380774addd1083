-- ===== src/ModeExecutor/Requests.antt =====
-- px4_ros2_cpp/src/components/mode_executor.cpp: what user code asks of the executor.
use px4_ros.Base.{
  ℕ, ◌+◌, Bool, false, not, ◌&&◌, List, ◌∷◌, if◌then◌else◌, F32, F64, nan32, nan64, float_of,
}
use px4_ros.Px4Msgs.{Px4Msgs}
use px4_ros.WaitLoop.{Wait}
use px4_ros.CommandSender.{Result, success, rejected, VehicleCommand, VehicleCommandAck}
use px4_ros.ModeExecutor.{
  Executor, Told, Callback, Condition, until_armed, until_disarmed, until_ready_to_arm, executor_id,
  is_success, send_command, call_back, cancel_scheduled, activate_scheduled, activate_wait,
}

-- A callback that is handed in with a call.
abbrev pub request_callback : Callback → Executor → Executor
request_callback k s = record s { requested = k ∷ s.requested }

-- The parameter that forces arming and disarming.
abbrev force_magic : ℕ
force_magic = 21196

module _ (c : Px4Msgs) (acks : List VehicleCommand → ℕ → List (Wait VehicleCommandAck))
    (tell : Told → Executor → Executor) where
  -- `sendCommandSync(command, param1, …)` with all its parameters.
  abbrev pub command_of : ℕ → F32 → F32 → F32 → F32 → F64 → F64 → F32 → Executor → VehicleCommand
  command_of command param1 param2 param3 param4 param5 param6 param7 s = record {
    command = command;
    param1 = param1;
    param2 = param2;
    param3 = param3;
    param4 = param4;
    param5 = param5;
    param6 = param6;
    param7 = param7;
    source_component = c.component_mode_executor_start + executor_id s;
  }

  -- The second half of `scheduleMode`, when the previous mode is cancelled.
  abbrev after_command : ℕ → Callback → Result × Executor → Executor
  after_command mode k (r, s) =
      if is_success r then activate_scheduled mode k s else call_back tell k r s

  -- `scheduleMode` with a command.
  unfoldable pub schedule_command :
      ℕ → (Executor → VehicleCommand) → Callback → Bool → Executor → Executor
  schedule_command mode cmd k forced s =
      let a = request_callback k s in
      if not a.is_armed && not forced
      then call_back tell k rejected a
      else (let b = cancel_scheduled tell a in after_command mode k (send_command c acks (cmd b) b))

  unfoldable pub schedule_mode : ℕ → Callback → Bool → Executor → Executor
  unfolding schedule_command
  schedule_mode mode =
      schedule_command mode (command_of c.vehicle_cmd_set_nav_state (float_of mode) 0 0 0 0 0 0)

  unfoldable pub takeoff : Callback → F32 → F32 → Executor → Executor
  unfolding schedule_command
  takeoff k altitude heading =
      schedule_command c.navigation_state_auto_takeoff
        (command_of c.vehicle_cmd_nav_takeoff nan32 nan32 nan32 heading nan64 nan64 altitude) k
        false

  unfoldable pub land : Callback → Executor → Executor
  unfolding schedule_mode
  land k = schedule_mode c.navigation_state_auto_land k false

  unfoldable pub rtl : Callback → Executor → Executor
  unfolding schedule_mode
  rtl k = schedule_mode c.navigation_state_auto_rtl k false

  abbrev after_arming : Condition → Callback → Result × Executor → Executor
  after_arming condition k (r, s) =
      if is_success r then activate_wait condition k s else call_back tell k r s

  unfoldable pub arm : Callback → Bool → Executor → Executor
  arm k run_preflight_checks s =
      let a = request_callback k s in
      if a.is_armed
      then call_back tell k success a
      else after_arming until_armed k (
          send_command c acks
            (command_of c.vehicle_cmd_component_arm_disarm (float_of 1)
              (if run_preflight_checks then nan32 else float_of force_magic) nan32 nan32 nan64 nan64
              nan32 a)
            a)

  unfoldable pub disarm : Callback → Bool → Executor → Executor
  disarm k forced s =
      let a = request_callback k s in
      if not a.is_armed
      then call_back tell k success a
      else after_arming until_disarmed k (
          send_command c acks
            (command_of c.vehicle_cmd_component_arm_disarm (float_of 0)
              (if forced then float_of force_magic else nan32) nan32 nan32 nan64 nan64 nan32 a)
            a)

  unfoldable pub wait_ready_to_arm : Callback → Executor → Executor
  wait_ready_to_arm k s =
      let a = request_callback k s in
      if a.is_armed then call_back tell k success a else activate_wait until_ready_to_arm k a

  unfoldable pub wait_until_disarmed : Callback → Executor → Executor
  wait_until_disarmed k s =
      let a = request_callback k s in
      if not a.is_armed then call_back tell k success a else activate_wait until_disarmed k a
