-- ===== src/Navigation/Local.antt =====
-- px4_ros2_cpp/src/navigation/experimental/local_position_measurement_interface.cpp
use px4_ros.Base.{
  ℕ, Bool, not, ◌&&◌, ◌||◌, List, [], ◌∷◌, Option, ◌==◌, if◌then◌else◌, has_value, value_or, F32,
  nan32,
}
use px4_ros.Navigation.{Outcome, throws, publishes, variance_fits, has_no_nan}

abbrev pub Vector2f : Type 0
Vector2f = F32 × F32

abbrev pub Vector3f : Type 0
Vector3f = F32 × F32 × F32

-- w, x, y, z
abbrev pub Quaternionf : Type 0
Quaternionf = F32 × F32 × F32 × F32

abbrev pub of1 : F32 → List F32
of1 x = x ∷ []

abbrev pub of2 : Vector2f → List F32
of2 (x, y) = x ∷ y ∷ []

abbrev pub of3 : Vector3f → List F32
of3 (x, y, z) = x ∷ y ∷ z ∷ []

abbrev pub of4 : Quaternionf → List F32
of4 (w, x, y, z) = w ∷ x ∷ y ∷ z ∷ []

-- The time of the sample is in nanoseconds.
pub record LocalPositionMeasurement : Type 0 where
  pub timestamp_sample : ℕ
  pub position_xy : Option Vector2f
  pub position_xy_variance : Option Vector2f
  pub position_z : Option F32
  pub position_z_variance : Option F32
  pub velocity_xy : Option Vector2f
  pub velocity_xy_variance : Option Vector2f
  pub velocity_z : Option F32
  pub velocity_z_variance : Option F32
  pub attitude_quaternion : Option Quaternionf
  pub attitude_variance : Option Vector3f

-- The message `VehicleOdometry`. The angular velocity is always a NaN.
pub record AuxLocalPosition : Type 0 where
  pub timestamp_sample : ℕ
  pub pose_frame : ℕ
  pub position : Vector3f
  pub position_variance : Vector3f
  pub q : Quaternionf
  pub orientation_variance : Vector3f
  pub velocity_frame : ℕ
  pub velocity : Vector3f
  pub velocity_variance : Vector3f
  pub angular_velocity : Vector3f

-- The frames of the interface, and the values that stand for unknown ones.
pub record Frames : Type 0 where
  pub pose_frame : ℕ
  pub velocity_frame : ℕ
  pub pose_frame_unknown : ℕ
  pub velocity_frame_unknown : ℕ

unfoldable pub is_measurement_non_empty : LocalPositionMeasurement → Bool
is_measurement_non_empty m =
    (((has_value m.position_xy || has_value m.position_z) || has_value m.velocity_xy)
      || has_value m.velocity_z)
    || has_value m.attitude_quaternion

unfoldable pub is_variance_valid : LocalPositionMeasurement → Bool
is_variance_valid m =
    variance_fits of2 m.position_xy m.position_xy_variance
    && (variance_fits of1 m.position_z m.position_z_variance
        && (variance_fits of2 m.velocity_xy m.velocity_xy_variance
            && (variance_fits of1 m.velocity_z m.velocity_z_variance
                && variance_fits of3 m.attitude_quaternion m.attitude_variance)))

unfoldable pub is_value_not_nan : LocalPositionMeasurement → Bool
is_value_not_nan m =
    has_no_nan of2 m.position_xy
    && (has_no_nan of2 m.position_xy_variance
        && (has_no_nan of1 m.position_z
            && (has_no_nan of1 m.position_z_variance
                && (has_no_nan of2 m.velocity_xy
                    && (has_no_nan of2 m.velocity_xy_variance
                        && (has_no_nan of1 m.velocity_z
                            && (has_no_nan of1 m.velocity_z_variance
                                && (has_no_nan of4 m.attitude_quaternion
                                    && has_no_nan of3 m.attitude_variance))))))))

-- The clock's resolution: `nanoseconds() * 1e-3`, as an integer, is an argument.
module _ (frames : Frames) (microseconds : ℕ → ℕ) where
  unfoldable pub is_frame_valid : LocalPositionMeasurement → Bool
  is_frame_valid m =
      not (
        (has_value m.position_xy || has_value m.position_z)
        && frames.pose_frame == frames.pose_frame_unknown)
      && not (
          (has_value m.velocity_xy || has_value m.velocity_z)
          && frames.velocity_frame == frames.velocity_frame_unknown)

  -- The message of a measurement that passed the checks.
  unfoldable pub message_of : LocalPositionMeasurement → AuxLocalPosition
  message_of m =
      let xy = value_or m.position_xy (nan32, nan32) in
      let xy_variance = value_or m.position_xy_variance (nan32, nan32) in
      let v_xy = value_or m.velocity_xy (nan32, nan32) in
      let v_xy_variance = value_or m.velocity_xy_variance (nan32, nan32) in
      record {
        timestamp_sample = microseconds m.timestamp_sample;
        pose_frame = frames.pose_frame;
        position = (xy.0, xy.1, value_or m.position_z nan32);
        position_variance = (xy_variance.0, xy_variance.1, value_or m.position_z_variance nan32);
        q = value_or m.attitude_quaternion (nan32, nan32, nan32, nan32);
        orientation_variance = value_or m.attitude_variance (nan32, nan32, nan32);
        velocity_frame = frames.velocity_frame;
        velocity = (v_xy.0, v_xy.1, value_or m.velocity_z nan32);
        velocity_variance =
            (v_xy_variance.0, v_xy_variance.1, value_or m.velocity_z_variance nan32);
        angular_velocity = (nan32, nan32, nan32);
      }

  -- `LocalPositionMeasurementInterface::update`
  unfoldable pub update : LocalPositionMeasurement → Outcome AuxLocalPosition
  update m =
      if not (is_measurement_non_empty m)
      then throws "Measurement values are all empty."
      else if not (is_variance_valid m)
      then throws "Measurement has an invalid variance value."
      else if not (is_frame_valid m)
      then throws "Measurement has an unknown reference frame."
      else if not (is_value_not_nan m)
      then throws "Measurement value contains a NAN."
      else if m.timestamp_sample == 0
      then throws "Measurement timestamp sample is empty."
      else publishes (message_of m)
