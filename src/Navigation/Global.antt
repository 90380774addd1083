-- ===== src/Navigation/Global.antt =====
-- px4_ros2_cpp/src/navigation/experimental/global_position_measurement_interface.cpp
use px4_ros.Base.{
  ℕ, ◌+◌, ◌%◌, Bool, true, not, ◌&&◌, ◌||◌, Option, none, some, ◌==◌, if◌then◌else◌, has_value,
  value_or, F32, F64, nan32, nan64, is_nan64,
}
use px4_ros.Navigation.{Outcome, throws, publishes, variance_fits, has_no_nan}
use px4_ros.Navigation.Local.{of1}

pub record GlobalPositionMeasurement : Type 0 where
  pub timestamp_sample : ℕ
  pub lat_lon : Option (F64 × F64)
  pub horizontal_variance : Option F32
  pub altitude_msl : Option F32
  pub vertical_variance : Option F32

pub record AuxGlobalPosition : Type 0 where
  pub timestamp_sample : ℕ
  pub id : ℕ
  pub source : ℕ
  pub lat_lon_reset_counter : ℕ
  pub lat : F64
  pub lon : F64
  pub eph : F32
  pub alt : F32
  pub epv : F32

pub record GlobalInterface : Type 0 where
  pub id : ℕ
  pub source : ℕ
  pub lat_lon_reset_counter : ℕ

-- `reset`: the counter has 8 bits.
unfoldable pub reset : GlobalInterface → GlobalInterface
reset g = record g { lat_lon_reset_counter = (g.lat_lon_reset_counter + 1) % 256 }

unfoldable pub is_measurement_non_empty : GlobalPositionMeasurement → Bool
is_measurement_non_empty m = has_value m.lat_lon || has_value m.altitude_msl

unfoldable pub is_variance_valid : GlobalPositionMeasurement → Bool
is_variance_valid m =
    variance_fits of1 m.lat_lon m.horizontal_variance
    && variance_fits of1 m.altitude_msl m.vertical_variance

abbrev pub lat_lon_has_no_nan : Option (F64 × F64) → Bool
unfolding is_nan64
lat_lon_has_no_nan none = true
lat_lon_has_no_nan (some (lat, lon)) = not (is_nan64 lat || is_nan64 lon)

unfoldable pub is_value_not_nan : GlobalPositionMeasurement → Bool
is_value_not_nan m =
    lat_lon_has_no_nan m.lat_lon
    && (has_no_nan of1 m.horizontal_variance
        && (has_no_nan of1 m.altitude_msl && has_no_nan of1 m.vertical_variance))

module _ (sqrt : F32 → F32) (microseconds : ℕ → ℕ) (g : GlobalInterface) where
  unfoldable pub message_of : GlobalPositionMeasurement → AuxGlobalPosition
  message_of m =
      let (lat, lon) = value_or m.lat_lon (nan64, nan64) in
      record {
        timestamp_sample = microseconds m.timestamp_sample;
        id = g.id;
        source = g.source;
        lat_lon_reset_counter = g.lat_lon_reset_counter;
        lat = lat;
        lon = lon;
        eph = sqrt (value_or m.horizontal_variance nan32);
        alt = value_or m.altitude_msl nan32;
        epv = sqrt (value_or m.vertical_variance nan32);
      }

  -- `GlobalPositionMeasurementInterface::update`
  unfoldable pub update : GlobalPositionMeasurement → Outcome AuxGlobalPosition
  update m =
      if not (is_measurement_non_empty m)
      then throws "Measurement values are all empty."
      else if not (is_variance_valid m)
      then throws "Measurement has an invalid variance value."
      else if not (is_value_not_nan m)
      then throws "Measurement value contains a NAN."
      else if m.timestamp_sample == 0
      then throws "Measurement timestamp sample is empty."
      else publishes (message_of m)
