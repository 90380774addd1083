-- ===== src/Witnesses/Measurements.antt =====
-- A measurement of the height and the velocity.
use px4_ros.Base.{ℕ, ◌≡◌, refl, none, some, le_zero32}
use px4_ros.Navigation.{publishes, variance_fits, has_no_nan}
use px4_ros.Navigation.Local.{
  LocalPositionMeasurement, Frames, is_measurement_non_empty, is_variance_valid, is_frame_valid,
  is_value_not_nan, message_of, update,
}
use px4_ros.Navigation.Lossless.{measured}
use px4_ros.Navigation.Trusted.{IsTrusted, update-IsTrusted}

abbrev frames : Frames
frames = record {
  pose_frame = 1;
  velocity_frame = 1;
  pose_frame_unknown = 0;
  velocity_frame_unknown = 0;
}

abbrev height : LocalPositionMeasurement
height = record {
  timestamp_sample = 5_000_000;
  position_xy = none;
  position_xy_variance = none;
  position_z = some 0x40000000;
  position_z_variance = some 0x3f800000;
  velocity_xy = some (0, 0x3f800000);
  velocity_xy_variance = some (0x3f800000, 0x3f800000);
  velocity_z = none;
  velocity_z_variance = none;
  attitude_quaternion = none;
  attitude_variance = none;
}

abbrev to_microseconds : ℕ → ℕ
to_microseconds n = 5_000

height_published :
    update frames to_microseconds height ≡ publishes (message_of frames to_microseconds height)
unfolding update is_measurement_non_empty is_variance_valid variance_fits le_zero32 is_frame_valid
    is_value_not_nan has_no_nan
height_published = refl

update-IsTrusted_example :
    (measured 5_000_000 (message_of frames to_microseconds height) ≡ height)
    × ((message_of frames to_microseconds height).timestamp_sample ≡ 5_000)
    × ¬ (height.timestamp_sample ≡ 0)
    × IsTrusted frames (message_of frames to_microseconds height)
update-IsTrusted_example =
    update-IsTrusted frames to_microseconds height (message_of frames to_microseconds height)
      height_published
