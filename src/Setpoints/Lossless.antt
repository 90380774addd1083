-- ===== src/Setpoints/Lossless.antt =====
-- A trajectory message tells which values its setpoint sets, and to what.
use px4_ros.Base.{◌≡◌, true}
use px4_ros.Navigation.{has_no_nan}
use px4_ros.Navigation.Local.{of1}
use px4_ros.Navigation.Lossless.{read, read1}
use px4_ros.Setpoints.Messages.{TrajectoryMessage}
use px4_ros.Setpoints.Trajectory.{TrajectorySetpoint, message_of}

-- The setpoint that a message tells: a NaN is no value.
abbrev pub told : TrajectoryMessage → TrajectorySetpoint
told m = record {
  position_ned_m_x = read m.position.0 m.position.0;
  position_ned_m_y = read m.position.1 m.position.1;
  position_ned_m_z = read m.position.2 m.position.2;
  velocity_ned_m_s_x = read m.velocity.0 m.velocity.0;
  velocity_ned_m_s_y = read m.velocity.1 m.velocity.1;
  velocity_ned_m_s_z = read m.velocity.2 m.velocity.2;
  acceleration_ned_m_s2_x = read m.acceleration.0 m.acceleration.0;
  acceleration_ned_m_s2_y = read m.acceleration.1 m.acceleration.1;
  acceleration_ned_m_s2_z = read m.acceleration.2 m.acceleration.2;
  yaw_ned_rad = read m.yaw m.yaw;
  yaw_rate_ned_rad_s = read m.yawspeed m.yawspeed;
}

-- No value of a setpoint is a NaN.
pub record Numbers (s : TrajectorySetpoint) : Type 0 where
  pub position_ned_m_x : has_no_nan of1 s.position_ned_m_x ≡ true
  pub position_ned_m_y : has_no_nan of1 s.position_ned_m_y ≡ true
  pub position_ned_m_z : has_no_nan of1 s.position_ned_m_z ≡ true
  pub velocity_ned_m_s_x : has_no_nan of1 s.velocity_ned_m_s_x ≡ true
  pub velocity_ned_m_s_y : has_no_nan of1 s.velocity_ned_m_s_y ≡ true
  pub velocity_ned_m_s_z : has_no_nan of1 s.velocity_ned_m_s_z ≡ true
  pub acceleration_ned_m_s2_x : has_no_nan of1 s.acceleration_ned_m_s2_x ≡ true
  pub acceleration_ned_m_s2_y : has_no_nan of1 s.acceleration_ned_m_s2_y ≡ true
  pub acceleration_ned_m_s2_z : has_no_nan of1 s.acceleration_ned_m_s2_z ≡ true
  pub yaw_ned_rad : has_no_nan of1 s.yaw_ned_rad ≡ true
  pub yaw_rate_ned_rad_s : has_no_nan of1 s.yaw_rate_ned_rad_s ≡ true

-- The message of a setpoint without a NaN tells the setpoint.
pub told-message_of : (s : TrajectorySetpoint) → Numbers s → told (message_of s) ≡ s
unfolding message_of
told-message_of s n i = record {
  position_ned_m_x = read1 s.position_ned_m_x n.position_ned_m_x i;
  position_ned_m_y = read1 s.position_ned_m_y n.position_ned_m_y i;
  position_ned_m_z = read1 s.position_ned_m_z n.position_ned_m_z i;
  velocity_ned_m_s_x = read1 s.velocity_ned_m_s_x n.velocity_ned_m_s_x i;
  velocity_ned_m_s_y = read1 s.velocity_ned_m_s_y n.velocity_ned_m_s_y i;
  velocity_ned_m_s_z = read1 s.velocity_ned_m_s_z n.velocity_ned_m_s_z i;
  acceleration_ned_m_s2_x = read1 s.acceleration_ned_m_s2_x n.acceleration_ned_m_s2_x i;
  acceleration_ned_m_s2_y = read1 s.acceleration_ned_m_s2_y n.acceleration_ned_m_s2_y i;
  acceleration_ned_m_s2_z = read1 s.acceleration_ned_m_s2_z n.acceleration_ned_m_s2_z i;
  yaw_ned_rad = read1 s.yaw_ned_rad n.yaw_ned_rad i;
  yaw_rate_ned_rad_s = read1 s.yaw_rate_ned_rad_s n.yaw_rate_ned_rad_s i;
}
