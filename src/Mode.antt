-- ===== src/Mode.antt =====
-- px4_ros2_cpp/src/components/mode.cpp, and the base class of setpoint types in
-- include/px4_ros2/common/setpoint_base.hpp. A mode's own code, its overrides of the virtual
-- methods, is a function from what it is told and the mode's state to the public calls that it
-- makes. Frequencies are binary32 bit patterns; times are nanoseconds.
pub mod Activation
pub mod Registering
pub mod Lifecycle
pub mod Setpoints
pub mod Timer
pub mod Completion
use px4_ros.Base.{
  ℕ, suc, ◌+◌, ◌-◌, Bool, true, false, not, ◌&&◌, ◌||◌, List, [], ◌∷◌, ◌++◌, map, Option, none,
  some, ltb, leb, ◌==◌, if◌then◌else◌, is_empty, F32, lt32, is_nan32, ℤ, has_value, get_elem?,
}
use px4_ros.Px4Msgs.{Px4Msgs}
use px4_ros.Requirements.{RequirementFlags, Configuration, merge}
use px4_ros.Overrides
use px4_ros.Overrides.{ConfigOverrides}
use px4_ros.Registration.{Registration, RegistrationSettings, mode_id_invalid}
use px4_ros.CommandSender.{Result, of_result}

-- `ModeBase::Settings`
pub record Settings : Type 0 where
  pub name : List ℕ
  pub activate_even_while_disarmed : Bool
  pub replace_internal_mode : ℕ
  pub prevent_arming : Bool
  pub user_selectable : Bool

-- A setpoint type; `object` tells the instances apart, as their addresses do.
pub record Setpoint : Type 0 where
  pub object : ℕ
  pub configuration : Configuration
  pub desired_update_rate_hz : F32
  pub active : Bool

-- `px4_msgs::msg::VehicleControlMode`
pub record VehicleControlMode : Type 0 where
  pub source_id : ℕ
  pub flag_control_rates_enabled : Bool
  pub flag_control_attitude_enabled : Bool
  pub flag_control_acceleration_enabled : Bool
  pub flag_control_velocity_enabled : Bool
  pub flag_control_position_enabled : Bool
  pub flag_control_altitude_enabled : Bool
  pub flag_control_allocation_enabled : Bool
  pub flag_control_climb_rate_enabled : Bool

-- What the mode's own code is told. An update of the setpoint comes with the nominal period of a
-- rate, or with the time since the last one.
pub data Notice : Type 0 where
  on_activate on_deactivate : Notice
  first_setpoint : F32 → Notice
  next_setpoint : ℕ → Notice

-- What left the mode: messages, and notices to its own code.
pub data Output : Type 0 where
  mode_completed : ℕ → ℕ → Output
  control_mode : VehicleControlMode → Output
  notified : Notice → Output

pub record Mode : Type 0 where
  pub settings : Settings
  pub registration : Registration
  pub requirements : RequirementFlags
  pub config_overrides : ConfigOverrides
  pub is_active : Bool
  pub is_armed : Bool
  pub completed : Bool
  pub setpoint_update_rate_hz : F32
  -- The rate of the timer, if there is one.
  pub setpoint_update_timer : Option F32
  pub last_setpoint_update : ℕ
  pub setpoint_types : List Setpoint
  pub new_setpoint_types : List Setpoint
  -- The latest first.
  pub outputs : List Output

-- `id()`
abbrev pub id : Mode → ℕ
id m = m.registration.unregister_ext_component.mode_id

abbrev pub emit : Output → Mode → Mode
emit o m = record m { outputs = o ∷ m.outputs }

-- `FLT_EPSILON`
abbrev pub flt_epsilon : F32
flt_epsilon = 0x34000000

-- `updateSetpointUpdateTimer`
unfoldable pub update_setpoint_update_timer : Mode → Mode
update_setpoint_update_timer m =
    if m.is_active && lt32 flt_epsilon m.setpoint_update_rate_hz
    then (if has_value m.setpoint_update_timer
        then m
        else record m { setpoint_update_timer = some m.setpoint_update_rate_hz })
    else record m { setpoint_update_timer = none }

unfoldable pub set_setpoint_update_rate : F32 → Mode → Mode
unfolding update_setpoint_update_timer
set_setpoint_update_rate rate_hz m =
    update_setpoint_update_timer
      (record m { setpoint_update_timer = none; setpoint_update_rate_hz = rate_hz })

-- `completed(result)`: reported once for each activation.
unfoldable pub complete : Result → Mode → Mode
complete result m = if m.completed then m else record m {
  completed = true;
  outputs = mode_completed (id m) (of_result result) ∷ m.outputs;
}

-- `Configuration::fillControlMode`
unfoldable pub fill_control_mode : ℕ → Configuration → VehicleControlMode
fill_control_mode source c = record {
  source_id = source;
  flag_control_rates_enabled = c.rates_enabled;
  flag_control_attitude_enabled = c.attitude_enabled;
  flag_control_acceleration_enabled = c.acceleration_enabled;
  flag_control_velocity_enabled = c.velocity_enabled;
  flag_control_position_enabled = c.position_enabled;
  flag_control_altitude_enabled = c.altitude_enabled;
  flag_control_allocation_enabled = c.control_allocation_enabled;
  flag_control_climb_rate_enabled = c.climb_rate_enabled;
}

-- The loop over `_setpoint_types` in the callback of `onAboutToRegister`: the type that asked is
-- active, every other one is not.
unfoldable pub select : ℕ → List Setpoint → List Setpoint
select object [] = []
select object (t ∷ ts) = record t { active = t.object == object } ∷ select object ts

-- The configurations that this loop publishes, in order.
unfoldable pub selected : ℕ → List Setpoint → List Configuration
selected object [] = []
selected object (t ∷ ts) =
    if t.object == object then t.configuration ∷ selected object ts else selected object ts

abbrev pub publish_all : List Configuration → Mode → Mode
publish_all [] m = m
publish_all (c ∷ cs) m = publish_all cs (emit (control_mode (fill_control_mode (id m) c)) m)

-- Whether the type is registered and not active. A type that is not registered has no callback.
unfoldable pub is_inactive_type : ℕ → List Setpoint → Bool
is_inactive_type object [] = false
is_inactive_type object (t ∷ ts) =
    if t.object == object then not t.active else is_inactive_type object ts

-- `SetpointBase::onUpdate`: an update of an inactive type switches to it.
unfoldable pub setpoint_update : ℕ → Mode → Mode
unfolding is_inactive_type select selected
setpoint_update object m =
    if is_inactive_type object m.setpoint_types
    then publish_all (selected object m.setpoint_types)
        (record m { setpoint_types = select object m.setpoint_types })
    else m

-- The calls that a mode's own code can make.
pub data Request : Type 0 where
  completes : Result → Request
  sets_rate : F32 → Request
  updates : ℕ → Request
  overrides : Overrides.Request → Request

unfoldable pub run_request : Request → Mode → Mode
run_request (completes result) m = complete result m
run_request (sets_rate rate_hz) m = set_setpoint_update_rate rate_hz m
run_request (updates object) m = setpoint_update object m
run_request (overrides r) m = record m { config_overrides = Overrides.apply r m.config_overrides }

unfoldable pub run_requests : List Request → Mode → Mode
run_requests [] m = m
run_requests (r ∷ rs) m = run_requests rs (run_request r m)

-- A mode's own code.
abbrev pub Code : Type 0
Code = Notice → Mode → List Request

unfoldable pub notify : Code → Notice → Mode → Mode
notify code n m = let m' = emit (notified n) m in run_requests (code n m') m'
