-- ===== src/CommandSender.antt =====
-- px4_ros2_cpp/src/utils/vehicle_command_sender.cpp: a command is sent and its acknowledgement
-- awaited; with the outcomes of requests, `Result` of px4_ros2_cpp/include/px4_ros2/components/mode.hpp.
-- Parameters are binary32 bit patterns (binary64 for parameters 5 and 6).
pub mod Laws
use px4_ros.Base.{
  ℕ, zero, suc, ◌≡◌, Bool, true, false, ◌&&◌, List, [], ◌∷◌, Option, none, some, ◌==◌,
  if◌then◌else◌, F32, F64, value_or, String,
}
use px4_ros.Px4Msgs.{Px4Msgs}
use px4_ros.WaitLoop.{Wait, request}

-- `unnamed n` is a value of the enumeration that has no name: results are cast from messages.
pub data Result : Type 0 where
  success rejected interrupted timeout deactivated mode_failure_other : Result
  unnamed : ℕ → Result

unfoldable pub result_to_string : Result → String
result_to_string success = "Success"
result_to_string rejected = "Rejected"
result_to_string interrupted = "Interrupted"
result_to_string timeout = "Timeout"
result_to_string deactivated = "Deactivated"
result_to_string mode_failure_other = "Mode Failure (generic)"
result_to_string (unnamed n) = "Unknown"

-- `static_cast<Result>(n)`
unfoldable pub to_result : ℕ → Result
to_result n =
    if n == 0
    then success
    else if n == 1
    then rejected
    else if n == 2
    then interrupted
    else if n == 3
    then timeout
    else if n == 4
    then deactivated
    else if n == 100
    then mode_failure_other
    else unnamed n

-- `static_cast<uint8_t>(result)`
unfoldable pub of_result : Result → ℕ
of_result success = 0
of_result rejected = 1
of_result interrupted = 2
of_result timeout = 3
of_result deactivated = 4
of_result mode_failure_other = 100
of_result (unnamed n) = n

pub record VehicleCommand : Type 0 where
  pub command : ℕ
  pub param1 : F32
  pub param2 : F32
  pub param3 : F32
  pub param4 : F32
  pub param5 : F64
  pub param6 : F64
  pub param7 : F32
  pub source_component : ℕ

pub record VehicleCommandAck : Type 0 where
  pub command : ℕ
  pub result : ℕ
  pub target_component : ℕ

-- The acknowledgement of this command to this component.
unfoldable pub acknowledges : VehicleCommand → VehicleCommandAck → Bool
acknowledges cmd ack = ack.command == cmd.command && ack.target_component == cmd.source_component

-- The body of the wait loop: `some` ends it.
unfoldable pub on_ack : Px4Msgs → VehicleCommand → VehicleCommandAck → Option Result
unfolding acknowledges
on_ack c cmd ack =
    if acknowledges cmd ack
    then some (if ack.result == c.vehicle_cmd_result_accepted then success else rejected)
    else none

abbrev pub max_commands : ℕ
max_commands = 3

-- `sendCommandSync`: the result, and how often the command was published.
unfoldable pub send_command_sync :
    Px4Msgs → VehicleCommand → (ℕ → List (Wait VehicleCommandAck)) → Result × ℕ
send_command_sync c cmd waits =
    let r = request (on_ack c cmd) max_commands 0 waits in (value_or r.0 timeout, r.1)
