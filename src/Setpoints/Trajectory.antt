-- ===== src/Setpoints/Trajectory.antt =====
-- px4_ros2_cpp/src/control/setpoint_types/experimental/trajectory.cpp, and its header with the setpoint
-- and its setters, which chain.
use px4_ros.Base.{List, [], ◌∷◌, Option, none, some, value_or, Bool, true, F32, nan32}
use px4_ros.Requirements.{Configuration}
use px4_ros.Setpoints.{Effect, calls_on_update, publishes, default_configuration}
use px4_ros.Setpoints.Messages.{Vector2f, Vector3f, TrajectoryMessage, trajectory_setpoint}

pub record TrajectorySetpoint : Type 0 where
  pub position_ned_m_x : Option F32
  pub position_ned_m_y : Option F32
  pub position_ned_m_z : Option F32
  pub velocity_ned_m_s_x : Option F32
  pub velocity_ned_m_s_y : Option F32
  pub velocity_ned_m_s_z : Option F32
  pub acceleration_ned_m_s2_x : Option F32
  pub acceleration_ned_m_s2_y : Option F32
  pub acceleration_ned_m_s2_z : Option F32
  pub yaw_ned_rad : Option F32
  pub yaw_rate_ned_rad_s : Option F32

abbrev pub empty : TrajectorySetpoint
empty = record {
  position_ned_m_x = none;
  position_ned_m_y = none;
  position_ned_m_z = none;
  velocity_ned_m_s_x = none;
  velocity_ned_m_s_y = none;
  velocity_ned_m_s_z = none;
  acceleration_ned_m_s2_x = none;
  acceleration_ned_m_s2_y = none;
  acceleration_ned_m_s2_z = none;
  yaw_ned_rad = none;
  yaw_rate_ned_rad_s = none;
}

unfoldable pub with_position_x : F32 → TrajectorySetpoint → TrajectorySetpoint
with_position_x x s = record s { position_ned_m_x = some x }

unfoldable pub with_position_y : F32 → TrajectorySetpoint → TrajectorySetpoint
with_position_y x s = record s { position_ned_m_y = some x }

unfoldable pub with_position_z : F32 → TrajectorySetpoint → TrajectorySetpoint
with_position_z x s = record s { position_ned_m_z = some x }

unfoldable pub with_velocity_x : F32 → TrajectorySetpoint → TrajectorySetpoint
with_velocity_x x s = record s { velocity_ned_m_s_x = some x }

unfoldable pub with_velocity_y : F32 → TrajectorySetpoint → TrajectorySetpoint
with_velocity_y x s = record s { velocity_ned_m_s_y = some x }

unfoldable pub with_velocity_z : F32 → TrajectorySetpoint → TrajectorySetpoint
with_velocity_z x s = record s { velocity_ned_m_s_z = some x }

unfoldable pub with_acceleration_x : F32 → TrajectorySetpoint → TrajectorySetpoint
with_acceleration_x x s = record s { acceleration_ned_m_s2_x = some x }

unfoldable pub with_acceleration_y : F32 → TrajectorySetpoint → TrajectorySetpoint
with_acceleration_y x s = record s { acceleration_ned_m_s2_y = some x }

unfoldable pub with_acceleration_z : F32 → TrajectorySetpoint → TrajectorySetpoint
with_acceleration_z x s = record s { acceleration_ned_m_s2_z = some x }

unfoldable pub with_yaw : F32 → TrajectorySetpoint → TrajectorySetpoint
with_yaw x s = record s { yaw_ned_rad = some x }

unfoldable pub with_yaw_rate : F32 → TrajectorySetpoint → TrajectorySetpoint
with_yaw_rate x s = record s { yaw_rate_ned_rad_s = some x }

-- Several components at once.
unfoldable pub with_position : Vector3f → TrajectorySetpoint → TrajectorySetpoint
with_position (x, y, z) s = record s {
  position_ned_m_x = some x;
  position_ned_m_y = some y;
  position_ned_m_z = some z;
}

unfoldable pub with_horizontal_position : Vector2f → TrajectorySetpoint → TrajectorySetpoint
with_horizontal_position (x, y) s = record s {
  position_ned_m_x = some x;
  position_ned_m_y = some y;
}

unfoldable pub with_velocity : Vector3f → TrajectorySetpoint → TrajectorySetpoint
with_velocity (x, y, z) s = record s {
  velocity_ned_m_s_x = some x;
  velocity_ned_m_s_y = some y;
  velocity_ned_m_s_z = some z;
}

unfoldable pub with_horizontal_velocity : Vector2f → TrajectorySetpoint → TrajectorySetpoint
with_horizontal_velocity (x, y) s = record s {
  velocity_ned_m_s_x = some x;
  velocity_ned_m_s_y = some y;
}

unfoldable pub with_acceleration : Vector3f → TrajectorySetpoint → TrajectorySetpoint
with_acceleration (x, y, z) s = record s {
  acceleration_ned_m_s2_x = some x;
  acceleration_ned_m_s2_y = some y;
  acceleration_ned_m_s2_z = some z;
}

unfoldable pub with_horizontal_acceleration : Vector2f → TrajectorySetpoint → TrajectorySetpoint
with_horizontal_acceleration (x, y) s = record s {
  acceleration_ned_m_s2_x = some x;
  acceleration_ned_m_s2_y = some y;
}

-- `TrajectorySetpointType::update` with a velocity.
unfoldable pub update_velocity : Vector3f → Option Vector3f → Option F32 → Option F32 → List Effect
update_velocity velocity acceleration yaw yaw_rate =
    calls_on_update
    ∷ publishes (
        trajectory_setpoint (record {
          position = (nan32, nan32, nan32);
          velocity = velocity;
          acceleration = value_or acceleration (nan32, nan32, nan32);
          yaw = value_or yaw nan32;
          yawspeed = value_or yaw_rate nan32;
        }))
    ∷ []

-- The message of a setpoint.
unfoldable pub message_of : TrajectorySetpoint → TrajectoryMessage
message_of s = record {
  position = (
    value_or s.position_ned_m_x nan32,
    value_or s.position_ned_m_y nan32,
    value_or s.position_ned_m_z nan32,
  );
  velocity = (
    value_or s.velocity_ned_m_s_x nan32,
    value_or s.velocity_ned_m_s_y nan32,
    value_or s.velocity_ned_m_s_z nan32,
  );
  acceleration = (
    value_or s.acceleration_ned_m_s2_x nan32,
    value_or s.acceleration_ned_m_s2_y nan32,
    value_or s.acceleration_ned_m_s2_z nan32,
  );
  yaw = value_or s.yaw_ned_rad nan32;
  yawspeed = value_or s.yaw_rate_ned_rad_s nan32;
}

unfoldable pub update : TrajectorySetpoint → List Effect
update s = calls_on_update ∷ publishes (trajectory_setpoint (message_of s)) ∷ []

unfoldable pub update_position : Vector3f → List Effect
update_position position =
    calls_on_update
    ∷ publishes (
        trajectory_setpoint (record {
          position = position;
          velocity = (nan32, nan32, nan32);
          acceleration = (nan32, nan32, nan32);
          yaw = nan32;
          yawspeed = nan32;
        }))
    ∷ []

unfoldable pub configuration : Bool → Configuration
configuration local_position_is_optional = record default_configuration {
  climb_rate_enabled = true;
  local_position_is_optional = local_position_is_optional;
}
