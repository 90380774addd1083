-- ===== src/Setpoints/Actuators.antt =====
-- px4_ros2_cpp/src/control: direct control of motors and servos, and of peripheral actuators by
-- commands, of which there is at most one in 100 ms. A vector of controls is a list of its size.
use px4_ros.Base.{ℕ, ◌+◌, List, [], ◌∷◌, false, if◌then◌else◌, ltb, ◌==◌, F32, nan32, is_nan32}
use px4_ros.Requirements.{Configuration}
use px4_ros.Setpoints.{Effect, calls_on_update, publishes}
use px4_ros.Setpoints.Messages.{actuator_motors, actuator_servos}

unfoldable pub update_motors : List F32 → List Effect
update_motors commands = calls_on_update ∷ publishes (actuator_motors commands) ∷ []

unfoldable pub update_servos : List F32 → List Effect
update_servos commands = calls_on_update ∷ publishes (actuator_servos commands) ∷ []

unfoldable pub direct_configuration : Configuration
direct_configuration = record {
  control_allocation_enabled = false;
  rates_enabled = false;
  attitude_enabled = false;
  altitude_enabled = false;
  acceleration_enabled = false;
  velocity_enabled = false;
  position_enabled = false;
  local_position_is_optional = false;
  climb_rate_enabled = false;
}

-- `PeripheralActuatorControls`: the commands, the latest first, each with the time of its call. The
-- conversion of two of the values to `double` is not modelled.
abbrev pub Actuators : Type 0
Actuators = F32 × F32 × F32 × F32 × F32 × F32

pub record PeripheralActuators : Type 0 where
  pub last_update : ℕ
  pub published : List (ℕ × Actuators)

-- `set` of all values, at a time in nanoseconds.
unfoldable pub set_all : ℕ → Actuators → PeripheralActuators → PeripheralActuators
set_all now values p =
    if ltb (p.last_update + 100_000_000) now
    then record { last_update = now; published = (now, values) ∷ p.published }
    else p

-- All but one value are a NaN; there are six.
unfoldable pub one_value : F32 → ℕ → Actuators
one_value x index = (
  (if index == 0 then x else nan32),
  (if index == 1 then x else nan32),
  (if index == 2 then x else nan32),
  (if index == 3 then x else nan32),
  (if index == 4 then x else nan32),
  (if index == 5 then x else nan32),
)

-- `set` of one value.
unfoldable pub set : ℕ → F32 → ℕ → PeripheralActuators → PeripheralActuators
set now value index p =
    if is_nan32 value then p else (if ltb index 6 then set_all now (one_value value index) p else p)
