-- ===== src/Navigation/Lossless.antt =====
-- A published message tells which values were measured: an absent value is a NaN, and no value that
-- is there is one.
use px4_ros.Base.{
  ℕ, ◌≡◌, refl, ap, Bool, true, false, not, ◌||◌, Option, none, some, if◌then◌else◌, value_or, F32,
  nan32, is_nan32, arith,
}
use px4_ros.Navigation.{Outcome, throws, publishes, has_no_nan}
use px4_ros.Navigation.Local.{
  Vector2f, Vector3f, Quaternionf, of1, of2, of3, of4, LocalPositionMeasurement, AuxLocalPosition,
  Frames, is_value_not_nan, message_of,
}

-- What a receiver reads: nothing where the first component is a NaN.
abbrev pub read {ℓ} : {A : Type ℓ} → F32 → A → Option A
read x a = if is_nan32 x then none else some a

-- The measurement that a message tells.
abbrev pub measured : ℕ → AuxLocalPosition → LocalPositionMeasurement
measured timestamp a = record {
  timestamp_sample = timestamp;
  position_xy = read a.position.0 (a.position.0, a.position.1);
  position_xy_variance = read a.position_variance.0 (a.position_variance.0, a.position_variance.1);
  position_z = read a.position.2 a.position.2;
  position_z_variance = read a.position_variance.2 a.position_variance.2;
  velocity_xy = read a.velocity.0 (a.velocity.0, a.velocity.1);
  velocity_xy_variance = read a.velocity_variance.0 (a.velocity_variance.0, a.velocity_variance.1);
  velocity_z = read a.velocity.2 a.velocity.2;
  velocity_z_variance = read a.velocity_variance.2 a.velocity_variance.2;
  attitude_quaternion = read a.q.0 a.q;
  attitude_variance = read a.orientation_variance.0 a.orientation_variance;
}

first_is_number : (x : F32) (rest : Bool) → not (is_nan32 x || rest) ≡ true → is_nan32 x ≡ false
first_is_number x rest h = ground arith

pub nan_is_nan : is_nan32 nan32 ≡ true
unfolding is_nan32
nan_is_nan = refl

read_number : {A : Type 0} (x : F32) (a : A) → is_nan32 x ≡ false → read x a ≡ some a
read_number x a h = ap (λ (b : Bool). if b then none else some a) h

read_nan : {A : Type 0} (a : A) → read nan32 a ≡ none
read_nan a = ap (λ (b : Bool). if b then none else some a) nan_is_nan

pub read1 :
    (o : Option F32) → has_no_nan of1 o ≡ true → read (value_or o nan32) (value_or o nan32) ≡ o
unfolding has_no_nan
read1 none h = read_nan nan32
read1 (some x) h = read_number x x (first_is_number x _ h)

read2 :
    (o : Option Vector2f)
    → has_no_nan of2 o ≡ true
    → let v = value_or o (nan32, nan32) in read v.0 (v.0, v.1) ≡ o
unfolding has_no_nan
read2 none h = read_nan (nan32, nan32)
read2 (some v) h = read_number v.0 v (first_is_number v.0 _ h)

read3 :
    (o : Option Vector3f)
    → has_no_nan of3 o ≡ true
    → let v = value_or o (nan32, nan32, nan32) in read v.0 v ≡ o
unfolding has_no_nan
read3 none h = read_nan (nan32, nan32, nan32)
read3 (some v) h = read_number v.0 v (first_is_number v.0 _ h)

read4 :
    (o : Option Quaternionf)
    → has_no_nan of4 o ≡ true
    → let v = value_or o (nan32, nan32, nan32, nan32) in read v.0 v ≡ o
unfolding has_no_nan
read4 none h = read_nan (nan32, nan32, nan32, nan32)
read4 (some v) h = read_number v.0 v (first_is_number v.0 _ h)

pub record Numbers (m : LocalPositionMeasurement) : Type 0 where
  pub position_xy : has_no_nan of2 m.position_xy ≡ true
  pub position_xy_variance : has_no_nan of2 m.position_xy_variance ≡ true
  pub position_z : has_no_nan of1 m.position_z ≡ true
  pub position_z_variance : has_no_nan of1 m.position_z_variance ≡ true
  pub velocity_xy : has_no_nan of2 m.velocity_xy ≡ true
  pub velocity_xy_variance : has_no_nan of2 m.velocity_xy_variance ≡ true
  pub velocity_z : has_no_nan of1 m.velocity_z ≡ true
  pub velocity_z_variance : has_no_nan of1 m.velocity_z_variance ≡ true
  pub attitude_quaternion : has_no_nan of4 m.attitude_quaternion ≡ true
  pub attitude_variance : has_no_nan of3 m.attitude_variance ≡ true

pub is_value_not_nan-Numbers :
    (m : LocalPositionMeasurement) → is_value_not_nan m ≡ true → Numbers m
unfolding is_value_not_nan
is_value_not_nan-Numbers m h = ground arith

module _ (frames : Frames) (microseconds : ℕ → ℕ) where
  pub message_of-measured :
      (m : LocalPositionMeasurement)
      → Numbers m
      → measured m.timestamp_sample (message_of frames microseconds m) ≡ m
  unfolding message_of
  message_of-measured m n i = record {
    timestamp_sample = m.timestamp_sample;
    position_xy = read2 m.position_xy n.position_xy i;
    position_xy_variance = read2 m.position_xy_variance n.position_xy_variance i;
    position_z = read1 m.position_z n.position_z i;
    position_z_variance = read1 m.position_z_variance n.position_z_variance i;
    velocity_xy = read2 m.velocity_xy n.velocity_xy i;
    velocity_xy_variance = read2 m.velocity_xy_variance n.velocity_xy_variance i;
    velocity_z = read1 m.velocity_z n.velocity_z i;
    velocity_z_variance = read1 m.velocity_z_variance n.velocity_z_variance i;
    attitude_quaternion = read4 m.attitude_quaternion n.attitude_quaternion i;
    attitude_variance = read3 m.attitude_variance n.attitude_variance i;
  }

  message_or : Outcome AuxLocalPosition → AuxLocalPosition → AuxLocalPosition
  message_or (publishes a) b = a
  message_or (throws reason) b = b

  pub accepted :
      (non_empty variance frame number zero_time : Bool) (b a : AuxLocalPosition)
      → (if not non_empty
          then throws "Measurement values are all empty."
          else if not variance
          then throws "Measurement has an invalid variance value."
          else if not frame
          then throws "Measurement has an unknown reference frame."
          else if not number
          then throws "Measurement value contains a NAN."
          else if zero_time
          then throws "Measurement timestamp sample is empty."
          else publishes b)
        ≡ publishes a
      → (non_empty ≡ true)
        × (variance ≡ true)
        × (frame ≡ true)
        × (number ≡ true)
        × (zero_time ≡ false)
        × (b ≡ a)
  unfolding message_or
  accepted false variance frame number zero_time b a e = cc
  accepted true false frame number zero_time b a e = cc
  accepted true true false number zero_time b a e = cc
  accepted true true true false zero_time b a e = cc
  accepted true true true true true b a e = cc
  accepted true true true true false b a e =
      (refl, refl, refl, refl, refl, ap (λ o. message_or o b) e)
