-- ===== src/Requirements.antt =====
-- px4_ros2_cpp/include/px4_ros2/common/requirement_flags.hpp, and the configuration of a setpoint
-- type in common/setpoint_base.hpp.
use px4_ros.Base.{Bool, false, ◌||◌}

pub record RequirementFlags : Type 0 where
  pub angular_velocity : Bool
  pub attitude : Bool
  pub local_alt : Bool
  pub local_position : Bool
  pub local_position_relaxed : Bool
  pub global_position : Bool
  pub mission : Bool
  pub home_position : Bool
  pub prevent_arming : Bool
  pub manual_control : Bool

-- `RequirementFlags{}`
unfoldable pub no_requirements : RequirementFlags
no_requirements = record {
  angular_velocity = false;
  attitude = false;
  local_alt = false;
  local_position = false;
  local_position_relaxed = false;
  global_position = false;
  mission = false;
  home_position = false;
  prevent_arming = false;
  manual_control = false;
}

-- `operator|=`
unfoldable pub merge : RequirementFlags → RequirementFlags → RequirementFlags
merge r o = record {
  angular_velocity = r.angular_velocity || o.angular_velocity;
  attitude = r.attitude || o.attitude;
  local_alt = r.local_alt || o.local_alt;
  local_position = r.local_position || o.local_position;
  local_position_relaxed = r.local_position_relaxed || o.local_position_relaxed;
  global_position = r.global_position || o.global_position;
  mission = r.mission || o.mission;
  home_position = r.home_position || o.home_position;
  prevent_arming = r.prevent_arming || o.prevent_arming;
  manual_control = r.manual_control || o.manual_control;
}

-- The fields `mode_req_*` of `px4_msgs::msg::ArmingCheckReply`.
pub record ModeRequirements : Type 0 where
  pub mode_req_angular_velocity : Bool
  pub mode_req_attitude : Bool
  pub mode_req_local_alt : Bool
  pub mode_req_local_position : Bool
  pub mode_req_local_position_relaxed : Bool
  pub mode_req_global_position : Bool
  pub mode_req_mission : Bool
  pub mode_req_home_position : Bool
  pub mode_req_prevent_arming : Bool
  pub mode_req_manual_control : Bool

unfoldable pub fill_arming_check_reply : RequirementFlags → ModeRequirements
fill_arming_check_reply r = record {
  mode_req_angular_velocity = r.angular_velocity;
  mode_req_attitude = r.attitude;
  mode_req_local_alt = r.local_alt;
  mode_req_local_position = r.local_position;
  mode_req_local_position_relaxed = r.local_position_relaxed;
  mode_req_global_position = r.global_position;
  mode_req_mission = r.mission;
  mode_req_home_position = r.home_position;
  mode_req_prevent_arming = r.prevent_arming;
  mode_req_manual_control = r.manual_control;
}

-- `SetpointBase::Configuration`
pub record Configuration : Type 0 where
  pub control_allocation_enabled : Bool
  pub rates_enabled : Bool
  pub attitude_enabled : Bool
  pub altitude_enabled : Bool
  pub acceleration_enabled : Bool
  pub velocity_enabled : Bool
  pub position_enabled : Bool
  pub local_position_is_optional : Bool
  pub climb_rate_enabled : Bool
