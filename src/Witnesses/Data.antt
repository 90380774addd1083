-- ===== src/Witnesses/Data.antt =====
-- Message constants, a registered component and a mode, as test data.
use px4_ros.Base.{ℕ, Bool, true, false, [], ◌∷◌, none}
use px4_ros.Px4Msgs.{Px4Msgs, VehicleStatus}
use px4_ros.Requirements.{Configuration, no_requirements}
use px4_ros.Overrides
use px4_ros.Registration.{Registration, RegistrationSettings}
use px4_ros.Mode.{Mode, Setpoint}
use px4_ros.ModeExecutor.{Executor, activate_only_when_armed}

abbrev pub px4 : Px4Msgs
px4 = record {
  name_size = 25;
  arming_state_armed = 2;
  failsafe_defer_state_disabled = 0;
  failsafe_defer_state_would_failsafe = 2;
  source_type_mode = 0;
  source_type_mode_executor = 1;
  navigation_state_auto_takeoff = 17;
  navigation_state_auto_land = 18;
  navigation_state_auto_rtl = 5;
  navigation_state_auto_loiter = 4;
  navigation_state_descend = 12;
  vehicle_cmd_set_nav_state = 100001;
  vehicle_cmd_nav_takeoff = 22;
  vehicle_cmd_component_arm_disarm = 400;
  vehicle_cmd_result_accepted = 0;
  component_mode_executor_start = 1000;
  vehicle_cmd_do_vtol_transition = 3000;
  vehicle_cmd_do_set_home = 179;
  vehicle_cmd_set_gps_global_origin = 100000;
  vehicle_vtol_state_transition_to_fw = 1;
  vehicle_vtol_state_transition_to_mc = 2;
  vehicle_vtol_state_mc = 3;
  vehicle_vtol_state_fw = 4;
  message_format_protocol_version = 1;
  topic_name_size = 50;
}

-- An armed vehicle in the mode 23, under the executor 1.
abbrev pub armed_status : VehicleStatus
armed_status = record {
  arming_state = 2;
  nav_state = 23;
  executor_in_charge = 1;
  failsafe = false;
  failsafe_defer_state = 0;
  pre_flight_checks_pass = true;
}

abbrev pub registered_component : Registration
registered_component = record {
  registered = true;
  unregister_ext_component = record {
    name = 65 ∷ [];
    arming_check_id = 3;
    mode_id = 23;
    mode_executor_id = 1;
  };
  unregistered = [];
}

abbrev pub name_settings : RegistrationSettings
name_settings = record {
  name = 65 ∷ [];
  register_arming_check = true;
  register_mode = true;
  register_mode_executor = false;
  enable_replace_internal_mode = false;
  replace_internal_mode = 0;
  activate_mode_immediately = false;
  user_selectable = true;
}

abbrev pub position_configuration : Configuration
position_configuration = record {
  control_allocation_enabled = true;
  rates_enabled = true;
  attitude_enabled = true;
  altitude_enabled = true;
  acceleration_enabled = true;
  velocity_enabled = true;
  position_enabled = true;
  local_position_is_optional = false;
  climb_rate_enabled = true;
}

abbrev pub setpoint_of : ℕ → Bool → Setpoint
setpoint_of object active = record {
  object = object;
  configuration = position_configuration;
  desired_update_rate_hz = 0;
  active = active;
}

-- A registered mode with two setpoint types, the first of which is active.
abbrev pub idle_mode : Mode
idle_mode = record {
  settings = record {
    name = 65 ∷ [];
    activate_even_while_disarmed = false;
    replace_internal_mode = 255;
    prevent_arming = false;
    user_selectable = true;
  };
  registration = registered_component;
  requirements = no_requirements;
  config_overrides = Overrides.new;
  is_active = false;
  is_armed = false;
  completed = false;
  setpoint_update_rate_hz = 0;
  setpoint_update_timer = none;
  last_setpoint_update = 0;
  setpoint_types = setpoint_of 7 true ∷ setpoint_of 8 false ∷ [];
  new_setpoint_types = [];
  outputs = [];
}

-- An executor that was not activated yet.
abbrev pub idle_executor : Executor
idle_executor = record {
  activation = activate_only_when_armed;
  registration = registered_component;
  owned_mode = idle_mode;
  scheduled_mode = none;
  wait_vehicle_status = none;
  is_in_charge = false;
  is_armed = false;
  was_never_activated = true;
  prev_nav_state = 0;
  prev_failsafe_defer_state = 0;
  config_overrides = Overrides.new;
  commands = [];
  requested = [];
  called = [];
  asserts_hold = true;
}
