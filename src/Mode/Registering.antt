-- ===== src/Mode/Registering.antt =====
-- px4_ros2_cpp/src/components/mode.cpp: from the construction of a mode to its registration.
use px4_ros.Base.{
  ℕ, Bool, true, false, not, ◌&&◌, ◌||◌, List, [], ◌∷◌, ◌++◌, none, ◌==◌, if◌then◌else◌, is_empty,
  F32, lt32,
}
use px4_ros.Px4Msgs.{Px4Msgs}
use px4_ros.Requirements.{RequirementFlags, Configuration, merge, no_requirements}
use px4_ros.Overrides
use px4_ros.Registration
use px4_ros.Registration.{RegistrationSettings, ExtComponentReply, mode_id_invalid, do_register}
use px4_ros.WaitLoop.{Wait}
use px4_ros.Mode.{
  Mode, Settings, Setpoint, id, emit, control_mode, fill_control_mode, flt_epsilon,
  set_setpoint_update_rate,
}

-- The constructor.
unfoldable pub new : Settings → Mode
new s = record {
  settings = s;
  registration = Registration.new;
  requirements =
      if s.prevent_arming
      then record no_requirements { prevent_arming = true }
      else no_requirements;
  config_overrides = Overrides.new;
  is_active = false;
  is_armed = false;
  completed = false;
  setpoint_update_rate_hz = 0;
  setpoint_update_timer = none;
  last_setpoint_update = 0;
  setpoint_types = [];
  new_setpoint_types = [];
  outputs = [];
}

unfoldable pub add_setpoint_type : Setpoint → Mode → Mode
add_setpoint_type t m = record m { new_setpoint_types = m.new_setpoint_types ++ t ∷ [] }

unfoldable pub set_requirement : RequirementFlags → Mode → Mode
unfolding merge
set_requirement r m = record m { requirements = merge m.requirements r }

-- `updateModeRequirementsFromSetpoints`, the body of its loop.
unfoldable pub require : Configuration → RequirementFlags → RequirementFlags
require c r =
    let a = record r {
      angular_velocity = r.angular_velocity || c.rates_enabled;
      attitude = r.attitude || c.attitude_enabled;
      local_alt = r.local_alt || c.altitude_enabled || c.climb_rate_enabled;
    } in
    if not c.local_position_is_optional
    then record a { local_position = a.local_position || c.velocity_enabled || c.position_enabled }
    else a

unfoldable pub require_all : List Setpoint → RequirementFlags → RequirementFlags
require_all [] r = r
require_all (t ∷ ts) r = require_all ts (require t.configuration r)

-- A manual mode is content with a relaxed position.
unfoldable pub relax : RequirementFlags → RequirementFlags
relax r =
    if r.manual_control
    then (if r.local_position
        then record r { local_position = false; local_position_relaxed = true }
        else r)
    else r

unfoldable pub update_mode_requirements_from_setpoints : Mode → Mode
update_mode_requirements_from_setpoints m = record m {
  requirements = relax (require_all m.setpoint_types m.requirements);
}

-- `setSetpointUpdateRateFromSetpointTypes`: `std::max` from -1 on.
unfoldable pub max_update_rate : F32 → List Setpoint → F32
max_update_rate rate [] = rate
max_update_rate rate (t ∷ ts) =
    max_update_rate (if lt32 rate t.desired_update_rate_hz then t.desired_update_rate_hz else rate)
      ts

abbrev minus_one : F32
minus_one = 0xbf800000

unfoldable pub set_setpoint_update_rate_from_setpoint_types : Mode → Mode
set_setpoint_update_rate_from_setpoint_types m =
    let rate = max_update_rate minus_one m.setpoint_types in
    if lt32 0 rate then set_setpoint_update_rate rate m else m

unfoldable pub on_about_to_register : Mode → Mode
unfolding update_mode_requirements_from_setpoints
on_about_to_register m = update_mode_requirements_from_setpoints (record m {
  setpoint_types = m.setpoint_types ++ m.new_setpoint_types;
  new_setpoint_types = [];
})

-- `activateSetpointType(*_setpoint_types[0])`
abbrev pub activate_first : List Setpoint → Mode → Mode
activate_first [] m = m
activate_first (t ∷ ts) m =
    emit (control_mode (fill_control_mode (id m) t.configuration))
      (record m { setpoint_types = record t { active = true } ∷ ts })

-- `onRegistered`: the new state, and whether the mode can be used.
unfoldable pub on_registered : Px4Msgs → Mode → Mode × Bool
on_registered c m =
    let a = record m {
      config_overrides = Overrides.setup c.source_type_mode (id m) m.config_overrides;
    } in
    if is_empty a.setpoint_types
    then (a, false)
    else (let b = activate_first a.setpoint_types a in
        if lt32 b.setpoint_update_rate_hz flt_epsilon
        then (set_setpoint_update_rate_from_setpoint_types b, true)
        else (b, true))

unfoldable pub get_registration_settings : Settings → RegistrationSettings
get_registration_settings s =
    let replaces = not (s.replace_internal_mode == mode_id_invalid) in
    record {
      name = s.name;
      register_arming_check = true;
      register_mode = true;
      register_mode_executor = false;
      enable_replace_internal_mode = replaces;
      replace_internal_mode = if replaces then s.replace_internal_mode else 0;
      activate_mode_immediately = false;
      user_selectable = s.user_selectable;
    }

-- `doRegister`. `compatible` is the result of the checks that are made before it, if they are not
-- skipped: the autopilot was heard and its messages have the definitions of the library.
unfoldable pub register :
    Px4Msgs → Bool → Bool → ℕ → (ℕ → List (Wait ExtComponentReply)) → Mode → Mode × Bool
unfolding on_about_to_register
register c skip_check compatible request_id waits m =
    if not skip_check && not compatible
    then (m, false)
    else (let a = on_about_to_register m in
        let (g, ret, _) =
          do_register c (get_registration_settings a.settings) request_id waits a.registration in
        let b = record a { registration = g } in if ret then on_registered c b else (b, false))
