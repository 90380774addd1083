-- ===== src/Setpoints/FixedWing.antt =====
-- px4_ros2_cpp/src/control/setpoint_types/fixedwing/lateral_longitudinal.cpp, and its header with the
-- setpoint, the control configuration and their setters.
use px4_ros.Base.{
  List, [], ◌∷◌, ◌++◌, Option, none, some, value_or, true, ◌||◌, if◌then◌else◌, F32, nan32, lt32,
}
use px4_ros.Requirements.{Configuration}
use px4_ros.Setpoints.{Effect, calls_on_update, publishes, default_configuration}
use px4_ros.Setpoints.Messages.{
  LateralMessage, LongitudinalMessage, lateral_setpoint, longitudinal_setpoint, lateral_limits,
  longitudinal_limits,
}

pub record FwLateralLongitudinalSetpoint : Type 0 where
  pub course : Option F32
  pub airspeed_direction : Option F32
  pub lateral_acceleration : Option F32
  pub altitude_msl : Option F32
  pub height_rate : Option F32
  pub equivalent_airspeed : Option F32
  pub throttle_direct : Option F32

unfoldable pub with_course : F32 → FwLateralLongitudinalSetpoint → FwLateralLongitudinalSetpoint
with_course x s = record s { course = some x }

unfoldable pub with_airspeed_direction :
    F32 → FwLateralLongitudinalSetpoint → FwLateralLongitudinalSetpoint
with_airspeed_direction x s = record s { airspeed_direction = some x }

unfoldable pub with_lateral_acceleration :
    F32 → FwLateralLongitudinalSetpoint → FwLateralLongitudinalSetpoint
with_lateral_acceleration x s = record s { lateral_acceleration = some x }

unfoldable pub with_altitude : F32 → FwLateralLongitudinalSetpoint → FwLateralLongitudinalSetpoint
with_altitude x s = record s { altitude_msl = some x }

unfoldable pub with_height_rate :
    F32 → FwLateralLongitudinalSetpoint → FwLateralLongitudinalSetpoint
with_height_rate x s = record s { height_rate = some x }

unfoldable pub with_equivalent_airspeed :
    F32 → FwLateralLongitudinalSetpoint → FwLateralLongitudinalSetpoint
with_equivalent_airspeed x s = record s { equivalent_airspeed = some x }

unfoldable pub with_throttle_direct :
    F32 → FwLateralLongitudinalSetpoint → FwLateralLongitudinalSetpoint
with_throttle_direct x s = record s { throttle_direct = some x }

pub record FwControlConfiguration : Type 0 where
  pub min_pitch : Option F32
  pub max_pitch : Option F32
  pub min_throttle : Option F32
  pub max_throttle : Option F32
  pub max_lateral_acceleration : Option F32
  pub target_climb_rate : Option F32
  pub target_sink_rate : Option F32
  pub speed_weight : Option F32

unfoldable pub with_pitch_limits : F32 → F32 → FwControlConfiguration → FwControlConfiguration
with_pitch_limits low high c = record c { min_pitch = some low; max_pitch = some high }

unfoldable pub with_throttle_limits : F32 → F32 → FwControlConfiguration → FwControlConfiguration
with_throttle_limits low high c = record c { min_throttle = some low; max_throttle = some high }

unfoldable pub with_max_acceleration : F32 → FwControlConfiguration → FwControlConfiguration
with_max_acceleration x c = record c { max_lateral_acceleration = some x }

unfoldable pub with_target_sink_rate : F32 → FwControlConfiguration → FwControlConfiguration
with_target_sink_rate x c = record c { target_sink_rate = some x }

unfoldable pub with_target_climb_rate : F32 → FwControlConfiguration → FwControlConfiguration
with_target_climb_rate x c = record c { target_climb_rate = some x }

-- Throws below 0 and above 2. A NaN is neither.
unfoldable pub with_speed_weight : F32 → FwControlConfiguration → Option FwControlConfiguration
with_speed_weight x c =
    if lt32 x 0 || lt32 0x40000000 x then none else some (record c { speed_weight = some x })

-- The two messages of an update.
abbrev pub publish_both : LateralMessage → LongitudinalMessage → List Effect
publish_both lateral longitudinal =
    publishes (lateral_setpoint lateral) ∷ publishes (longitudinal_setpoint longitudinal) ∷ []

abbrev pub lateral_of : F32 → Option F32 → LateralMessage
lateral_of course lateral_acceleration = record {
  course = course;
  airspeed_direction = nan32;
  lateral_acceleration = value_or lateral_acceleration nan32;
}

-- `updateWithAltitude` and `updateWithHeightRate`
unfoldable pub update_with_altitude : F32 → F32 → Option F32 → Option F32 → List Effect
update_with_altitude altitude course equivalent_airspeed lateral_acceleration =
    calls_on_update
    ∷ publish_both (lateral_of course lateral_acceleration) (record {
      altitude = altitude;
      height_rate = nan32;
      equivalent_airspeed = value_or equivalent_airspeed nan32;
      pitch_direct = nan32;
      throttle_direct = nan32;
    })

unfoldable pub update_with_height_rate : F32 → F32 → Option F32 → Option F32 → List Effect
update_with_height_rate height_rate course equivalent_airspeed lateral_acceleration =
    calls_on_update
    ∷ publish_both (lateral_of course lateral_acceleration) (record {
      altitude = nan32;
      height_rate = height_rate;
      equivalent_airspeed = value_or equivalent_airspeed nan32;
      pitch_direct = nan32;
      throttle_direct = nan32;
    })

-- `update` of a setpoint.
unfoldable pub update : FwLateralLongitudinalSetpoint → List Effect
update s =
    calls_on_update
    ∷ publish_both
        (record {
          course = value_or s.course nan32;
          airspeed_direction = value_or s.airspeed_direction nan32;
          lateral_acceleration = value_or s.lateral_acceleration nan32;
        })
        (record {
          altitude = value_or s.altitude_msl nan32;
          height_rate = value_or s.height_rate nan32;
          equivalent_airspeed = value_or s.equivalent_airspeed nan32;
          pitch_direct = nan32;
          throttle_direct = value_or s.throttle_direct nan32;
        })

-- `update` of a setpoint and a control configuration: the mode is told twice.
unfoldable pub update_with_configuration :
    FwLateralLongitudinalSetpoint → FwControlConfiguration → List Effect
update_with_configuration s c =
    calls_on_update
    ∷ (update s
        ++ publishes (lateral_limits (value_or c.max_lateral_acceleration nan32))
          ∷ publishes (
              longitudinal_limits (record {
                pitch_min = value_or c.min_pitch nan32;
                pitch_max = value_or c.max_pitch nan32;
                throttle_min = value_or c.min_throttle nan32;
                throttle_max = value_or c.max_throttle nan32;
                climb_rate_target = value_or c.target_climb_rate nan32;
                sink_rate_target = value_or c.target_sink_rate nan32;
                speed_weight = value_or c.speed_weight nan32;
              }))
          ∷ [])

unfoldable pub configuration : Configuration
configuration = record default_configuration { climb_rate_enabled = true }
