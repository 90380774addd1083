-- ===== src/Vehicle.antt =====
-- px4_ros2_cpp/src/components/wait_for_fmu.cpp and src/vehicle_state/home_position_setter.cpp: the wait
-- for a first message of the autopilot, and the setting of the home position.
use px4_ros.Base.{ℕ, ◌≡◌, Bool, List, some, has_value, any, F32, F64}
use px4_ros.Px4Msgs.{Px4Msgs, VehicleStatus}
use px4_ros.WaitLoop.{Wait, on_message, await}
use px4_ros.WaitLoop.Laws.{await-any}
use px4_ros.CommandSender.{Result, VehicleCommandAck, send_command_sync}

-- `waitForFMU`: what the wait set returned before the timeout.
unfoldable pub wait_for_fmu : List (Wait VehicleStatus) → Bool
wait_for_fmu waits = has_value (await (λ status. some status) waits)

-- A message was received exactly if one was taken in time.
pub wait_for_fmu-any :
    (waits : List (Wait VehicleStatus))
    → wait_for_fmu waits ≡ any (λ w. has_value (on_message (λ status. some status) w)) waits
unfolding wait_for_fmu
wait_for_fmu-any waits = await-any (λ status. some status) waits

-- `1.f`
abbrev one : F32
one = 0x3f800000

module _ (c : Px4Msgs) (waits : ℕ → List (Wait VehicleCommandAck)) where
  -- `HomePositionSetter::sendCommand`
  unfoldable pub send_command : ℕ → F32 → F32 → F32 → F32 → F64 → F64 → F32 → Result × ℕ
  send_command command param1 param2 param3 param4 param5 param6 param7 =
      send_command_sync c
        (record {
          command = command;
          param1 = param1;
          param2 = param2;
          param3 = param3;
          param4 = param4;
          param5 = param5;
          param6 = param6;
          param7 = param7;
          source_component = 0;
        })
        waits

  unfoldable pub set_home_to_current_position : Result × ℕ
  set_home_to_current_position = send_command c.vehicle_cmd_do_set_home one 0 0 0 0 0 0

  unfoldable pub set_home : F64 → F64 → F32 → Result × ℕ
  set_home latitude longitude altitude =
      send_command c.vehicle_cmd_do_set_home 0 0 0 0 latitude longitude altitude

  unfoldable pub set_gps_global_origin : F64 → F64 → F32 → Result × ℕ
  set_gps_global_origin latitude longitude altitude =
      send_command c.vehicle_cmd_set_gps_global_origin 0 0 0 0 latitude longitude altitude
