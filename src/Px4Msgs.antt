-- ===== src/Px4Msgs.antt =====
-- The constants of the message package px4_msgs that the library reads. The package is generated
-- from the autopilot's message definitions and is not part of the repository, so every module
-- takes these values as a parameter.
use px4_ros.Base.{ℕ, Bool}

pub record Px4Msgs : Type 0 where
  -- The size of the `name` arrays of the registration messages.
  pub name_size : ℕ
  pub arming_state_armed : ℕ
  pub failsafe_defer_state_disabled : ℕ
  pub failsafe_defer_state_would_failsafe : ℕ
  pub source_type_mode : ℕ
  pub source_type_mode_executor : ℕ
  pub navigation_state_auto_takeoff : ℕ
  pub navigation_state_auto_land : ℕ
  pub navigation_state_auto_rtl : ℕ
  pub navigation_state_auto_loiter : ℕ
  pub navigation_state_descend : ℕ
  pub vehicle_cmd_set_nav_state : ℕ
  pub vehicle_cmd_nav_takeoff : ℕ
  pub vehicle_cmd_component_arm_disarm : ℕ
  pub vehicle_cmd_result_accepted : ℕ
  pub component_mode_executor_start : ℕ
  pub vehicle_cmd_do_vtol_transition : ℕ
  pub vehicle_cmd_do_set_home : ℕ
  pub vehicle_cmd_set_gps_global_origin : ℕ
  pub vehicle_vtol_state_transition_to_fw : ℕ
  pub vehicle_vtol_state_transition_to_mc : ℕ
  pub vehicle_vtol_state_mc : ℕ
  pub vehicle_vtol_state_fw : ℕ
  pub message_format_protocol_version : ℕ
  -- The size of the `topic_name` arrays of the message format messages.
  pub topic_name_size : ℕ

-- `px4_msgs::msg::VehicleStatus`, the fields that the library reads.
pub record VehicleStatus : Type 0 where
  pub arming_state : ℕ
  pub nav_state : ℕ
  pub executor_in_charge : ℕ
  pub failsafe : Bool
  pub failsafe_defer_state : ℕ
  pub pre_flight_checks_pass : Bool
