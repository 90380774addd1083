-- ===== src/Setpoints.antt =====
-- px4_ros2_cpp/src/control: the setpoint types. Floats are bit patterns. An update is the list of what
-- it does: it tells the mode that the type is in use (`onUpdate`), and publishes messages.
pub mod Messages
pub mod Trajectory
pub mod Multicopter
pub mod FixedWing
pub mod Rover
pub mod Actuators
pub mod Lossless
use px4_ros.Base.{true, false}
use px4_ros.Requirements.{Configuration}
use px4_ros.Setpoints.Messages.{Message}

pub data Effect : Type 0 where
  calls_on_update : Effect
  publishes : Message → Effect

-- `Configuration config{}`
abbrev pub default_configuration : Configuration
default_configuration = record {
  control_allocation_enabled = true;
  rates_enabled = true;
  attitude_enabled = true;
  altitude_enabled = true;
  acceleration_enabled = true;
  velocity_enabled = true;
  position_enabled = true;
  local_position_is_optional = false;
  climb_rate_enabled = false;
}
