-- ===== src/Setpoints/Rover.antt =====
-- px4_ros2_cpp/src/control/setpoint_types/experimental/rover
use px4_ros.Base.{List, [], ◌∷◌, Option, value_or, false, F32, nan32}
use px4_ros.Requirements.{Configuration}
use px4_ros.Setpoints.{Effect, calls_on_update, publishes, default_configuration}
use px4_ros.Setpoints.Messages.{
  Vector2f, rover_position_setpoint, rover_speed_setpoint, rover_throttle_setpoint,
  rover_attitude_setpoint, rover_rate_setpoint, rover_steering_setpoint,
}

unfoldable pub position_update :
    Vector2f → Option Vector2f → Option F32 → Option F32 → Option F32 → List Effect
position_update position start cruising_speed arrival_speed yaw =
    calls_on_update
    ∷ publishes (
        rover_position_setpoint (record {
          position_ned = position;
          start_ned = value_or start (nan32, nan32);
          cruising_speed = value_or cruising_speed nan32;
          arrival_speed = value_or arrival_speed nan32;
          yaw = value_or yaw nan32;
        }))
    ∷ []

unfoldable pub position_configuration : Configuration
position_configuration = default_configuration

unfoldable pub speed_attitude_update : F32 → F32 → Option F32 → List Effect
speed_attitude_update body_x setpoint body_y =
    calls_on_update
    ∷ publishes (rover_speed_setpoint body_x (value_or body_y nan32))
    ∷ publishes (rover_attitude_setpoint setpoint)
    ∷ []

unfoldable pub speed_attitude_configuration : Configuration
speed_attitude_configuration = record default_configuration { position_enabled = false }

unfoldable pub speed_rate_update : F32 → F32 → Option F32 → List Effect
speed_rate_update body_x setpoint body_y =
    calls_on_update
    ∷ publishes (rover_speed_setpoint body_x (value_or body_y nan32))
    ∷ publishes (rover_rate_setpoint setpoint)
    ∷ []

unfoldable pub speed_rate_configuration : Configuration
speed_rate_configuration = record default_configuration {
  attitude_enabled = false;
  position_enabled = false;
}

unfoldable pub speed_steering_update : F32 → F32 → Option F32 → List Effect
speed_steering_update body_x setpoint body_y =
    calls_on_update
    ∷ publishes (rover_speed_setpoint body_x (value_or body_y nan32))
    ∷ publishes (rover_steering_setpoint setpoint)
    ∷ []

unfoldable pub speed_steering_configuration : Configuration
speed_steering_configuration = record default_configuration {
  rates_enabled = false;
  attitude_enabled = false;
  position_enabled = false;
}

unfoldable pub throttle_attitude_update : F32 → F32 → Option F32 → List Effect
throttle_attitude_update body_x setpoint body_y =
    calls_on_update
    ∷ publishes (rover_throttle_setpoint body_x (value_or body_y nan32))
    ∷ publishes (rover_attitude_setpoint setpoint)
    ∷ []

unfoldable pub throttle_attitude_configuration : Configuration
throttle_attitude_configuration = record default_configuration { position_enabled = false }

unfoldable pub throttle_rate_update : F32 → F32 → Option F32 → List Effect
throttle_rate_update body_x setpoint body_y =
    calls_on_update
    ∷ publishes (rover_throttle_setpoint body_x (value_or body_y nan32))
    ∷ publishes (rover_rate_setpoint setpoint)
    ∷ []

unfoldable pub throttle_rate_configuration : Configuration
throttle_rate_configuration = record default_configuration {
  attitude_enabled = false;
  position_enabled = false;
}

unfoldable pub throttle_steering_update : F32 → F32 → Option F32 → List Effect
throttle_steering_update body_x setpoint body_y =
    calls_on_update
    ∷ publishes (rover_throttle_setpoint body_x (value_or body_y nan32))
    ∷ publishes (rover_steering_setpoint setpoint)
    ∷ []

unfoldable pub throttle_steering_configuration : Configuration
throttle_steering_configuration = record default_configuration {
  rates_enabled = false;
  attitude_enabled = false;
  position_enabled = false;
}
