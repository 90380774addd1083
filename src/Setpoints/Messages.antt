-- ===== src/Setpoints/Messages.antt =====
-- The messages of the setpoint types, of the package px4_msgs.
use px4_ros.Base.{Bool, List, F32}

abbrev pub Vector2f : Type 0
Vector2f = F32 × F32

abbrev pub Vector3f : Type 0
Vector3f = F32 × F32 × F32

pub record GotoMessage : Type 0 where
  pub position : Vector3f
  pub heading : F32
  pub flag_control_heading : Bool
  pub max_horizontal_speed : F32
  pub max_vertical_speed : F32
  pub max_heading_rate : F32
  pub flag_set_max_horizontal_speed : Bool
  pub flag_set_max_vertical_speed : Bool
  pub flag_set_max_heading_rate : Bool

pub record TrajectoryMessage : Type 0 where
  pub position : Vector3f
  pub velocity : Vector3f
  pub acceleration : Vector3f
  pub yaw : F32
  pub yawspeed : F32

pub record AttitudeMessage : Type 0 where
  pub q_d : F32 × F32 × F32 × F32
  pub thrust_body : Vector3f
  pub yaw_sp_move_rate : F32

pub record RatesMessage : Type 0 where
  pub roll : F32
  pub pitch : F32
  pub yaw : F32
  pub thrust_body : Vector3f

pub record LateralMessage : Type 0 where
  pub course : F32
  pub airspeed_direction : F32
  pub lateral_acceleration : F32

pub record LongitudinalMessage : Type 0 where
  pub altitude : F32
  pub height_rate : F32
  pub equivalent_airspeed : F32
  pub pitch_direct : F32
  pub throttle_direct : F32

pub record LongitudinalLimits : Type 0 where
  pub pitch_min : F32
  pub pitch_max : F32
  pub throttle_min : F32
  pub throttle_max : F32
  pub climb_rate_target : F32
  pub sink_rate_target : F32
  pub speed_weight : F32

pub record RoverPositionMessage : Type 0 where
  pub position_ned : Vector2f
  pub start_ned : Vector2f
  pub cruising_speed : F32
  pub arrival_speed : F32
  pub yaw : F32

-- `lateral_limits` is the lateral control configuration, with the greatest acceleration.
pub data Message : Type 0 where
  goto_setpoint : GotoMessage → Message
  trajectory_setpoint : TrajectoryMessage → Message
  attitude_setpoint : AttitudeMessage → Message
  rates_setpoint : RatesMessage → Message
  lateral_setpoint : LateralMessage → Message
  longitudinal_setpoint : LongitudinalMessage → Message
  lateral_limits : F32 → Message
  longitudinal_limits : LongitudinalLimits → Message
  rover_position_setpoint : RoverPositionMessage → Message
  rover_speed_setpoint rover_throttle_setpoint : F32 → F32 → Message
  rover_attitude_setpoint rover_rate_setpoint rover_steering_setpoint : F32 → Message
  actuator_motors actuator_servos : List F32 → Message
