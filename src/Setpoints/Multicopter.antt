-- ===== src/Setpoints/Multicopter.antt =====
-- px4_ros2_cpp/src/control/setpoint_types: goto, attitude and rates setpoints. The map projection and
-- the conversion of Euler angles are arguments.
use px4_ros.Base.{List, [], ◌∷◌, Option, none, some, has_value, value_or, true, false, F32, F64}
use px4_ros.Requirements.{Configuration}
use px4_ros.Setpoints.{Effect, calls_on_update, publishes, default_configuration}
use px4_ros.Setpoints.Messages.{Vector3f, goto_setpoint, attitude_setpoint, rates_setpoint}

-- `MulticopterGotoSetpointType::update`
unfoldable pub goto_update :
    Vector3f → Option F32 → Option F32 → Option F32 → Option F32 → List Effect
goto_update position heading max_horizontal_speed max_vertical_speed max_heading_rate =
    calls_on_update
    ∷ publishes (
        goto_setpoint (record {
          position = position;
          heading = value_or heading 0;
          flag_control_heading = has_value heading;
          max_horizontal_speed = value_or max_horizontal_speed 0;
          max_vertical_speed = value_or max_vertical_speed 0;
          max_heading_rate = value_or max_heading_rate 0;
          flag_set_max_horizontal_speed = has_value max_horizontal_speed;
          flag_set_max_vertical_speed = has_value max_vertical_speed;
          flag_set_max_heading_rate = has_value max_heading_rate;
        }))
    ∷ []

unfoldable pub goto_configuration : Configuration
goto_configuration = record default_configuration { climb_rate_enabled = true }

-- `MulticopterGotoGlobalSetpointType::update`: nothing without a map projection.
unfoldable pub goto_global_update :
    Option (F64 × F64 × F64 → Vector3f)
    → F64 × F64 × F64
    → Option F32
    → Option F32
    → Option F32
    → Option F32
    → List Effect
goto_global_update none position heading horizontal vertical rate = []
goto_global_update (some global_to_local) position heading horizontal vertical rate =
    goto_update (global_to_local position) heading horizontal vertical rate

-- `AttitudeSetpointType::update`, with a quaternion (w, x, y, z) and with Euler angles.
unfoldable pub attitude_update : F32 × F32 × F32 × F32 → Vector3f → F32 → List Effect
attitude_update q thrust yaw_sp_move_rate =
    calls_on_update
    ∷ publishes (
        attitude_setpoint
          (record { q_d = q; thrust_body = thrust; yaw_sp_move_rate = yaw_sp_move_rate }))
    ∷ []

unfoldable pub attitude_update_rpy :
    (Vector3f → F32 × F32 × F32 × F32) → F32 → F32 → F32 → Vector3f → F32 → List Effect
attitude_update_rpy euler_rpy_to_quaternion roll pitch yaw thrust yaw_sp_move_rate =
    calls_on_update
    ∷ publishes (
        attitude_setpoint (record {
          q_d = euler_rpy_to_quaternion (roll, pitch, yaw);
          thrust_body = thrust;
          yaw_sp_move_rate = yaw_sp_move_rate;
        }))
    ∷ []

unfoldable pub attitude_configuration : Configuration
attitude_configuration = record default_configuration {
  altitude_enabled = false;
  climb_rate_enabled = false;
  acceleration_enabled = false;
  velocity_enabled = false;
  position_enabled = false;
}

-- `RatesSetpointType::update`
unfoldable pub rates_update : Vector3f → Vector3f → List Effect
rates_update (roll, pitch, yaw) thrust =
    calls_on_update
    ∷ publishes
        (rates_setpoint (record { roll = roll; pitch = pitch; yaw = yaw; thrust_body = thrust }))
    ∷ []

unfoldable pub rates_configuration : Configuration
rates_configuration = record default_configuration {
  attitude_enabled = false;
  altitude_enabled = false;
  climb_rate_enabled = false;
  acceleration_enabled = false;
  velocity_enabled = false;
  position_enabled = false;
}
