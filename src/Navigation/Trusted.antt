-- ===== src/Navigation/Trusted.antt =====
-- What a receiver of a local position measurement can rely on: which values are there, that they have
-- variances, and that the frames of positions and velocities are known.
use px4_ros.Base.{
  ℕ, ◌≡◌, refl, sym, ap, ◌∙◌, true, false, ◌||◌, ◌⊎◌, inl, inr, Option, none, some, value_or,
  has_value, F32, nan32, is_nan32, le_zero32, arith, ◌==◌, Bool-cases,
}
use mathlib.Core.Path.{subst}
use px4_ros.Navigation.{publishes, has_no_nan, variance_fits}
use px4_ros.Navigation.Local.{
  Vector2f, Vector3f, Quaternionf, of1, of2, of3, of4, LocalPositionMeasurement, AuxLocalPosition,
  Frames, is_measurement_non_empty, is_variance_valid, is_value_not_nan, is_frame_valid, message_of,
  update,
}
use px4_ros.Navigation.Lossless.{
  measured, nan_is_nan, Numbers, is_value_not_nan-Numbers, message_of-measured, accepted,
}

abbrev pub IsNumber : F32 → Type 0
IsNumber x = is_nan32 x ≡ false

abbrev pub IsPositive : F32 → Type 0
IsPositive x = IsNumber x × (le_zero32 x ≡ false)

-- Something is a number. What is a number has a positive variance; if it is a position or a velocity,
-- then its frame is not the unknown one.
pub record IsTrusted (frames : Frames) (a : AuxLocalPosition) : Type 0 where
  pub something :
      IsNumber a.position.0
      ⊎ (IsNumber a.position.2 ⊎ (IsNumber a.velocity.0 ⊎ (IsNumber a.velocity.2 ⊎ IsNumber a.q.0)))
  pub position_xy :
      IsNumber a.position.0
      → IsPositive a.position_variance.0
        × IsPositive a.position_variance.1
        × ¬ (a.pose_frame ≡ frames.pose_frame_unknown)
  pub position_z :
      IsNumber a.position.2
      → IsPositive a.position_variance.2 × ¬ (a.pose_frame ≡ frames.pose_frame_unknown)
  pub velocity_xy :
      IsNumber a.velocity.0
      → IsPositive a.velocity_variance.0
        × IsPositive a.velocity_variance.1
        × ¬ (a.velocity_frame ≡ frames.velocity_frame_unknown)
  pub velocity_z :
      IsNumber a.velocity.2
      → IsPositive a.velocity_variance.2 × ¬ (a.velocity_frame ≡ frames.velocity_frame_unknown)
  pub attitude :
      IsNumber a.q.0
      → IsPositive a.orientation_variance.0
        × IsPositive a.orientation_variance.1
        × IsPositive a.orientation_variance.2

nan_refuted : ¬ IsNumber nan32
nan_refuted h = let q = sym nan_is_nan ∙ h in cc

-- One value: it is there exactly if it is a number, and then its variance is positive.
there1 : (o : Option F32) → IsNumber (value_or o nan32) → has_value o ≡ true
there1 none h = absurd (nan_refuted h)
there1 (some x) h = refl

there2 : (o : Option Vector2f) → IsNumber (value_or o (nan32, nan32)).0 → has_value o ≡ true
there2 none h = absurd (nan_refuted h)
there2 (some x) h = refl

number1 :
    (o : Option F32) → has_value o ≡ true → has_no_nan of1 o ≡ true → IsNumber (value_or o nan32)
unfolding has_no_nan
number1 none h n = cc
number1 (some x) h n = ground arith

number2 :
    (o : Option Vector2f)
    → has_value o ≡ true
    → has_no_nan of2 o ≡ true
    → IsNumber (value_or o (nan32, nan32)).0
unfolding has_no_nan
number2 none h n = cc
number2 (some x) h n = ground arith

number4 :
    (o : Option Quaternionf)
    → has_value o ≡ true
    → has_no_nan of4 o ≡ true
    → IsNumber (value_or o (nan32, nan32, nan32, nan32)).0
unfolding has_no_nan
number4 none h n = cc
number4 (some x) h n = ground arith

positive1 :
    (o v : Option F32)
    → variance_fits of1 o v ≡ true
    → has_no_nan of1 v ≡ true
    → IsNumber (value_or o nan32)
    → IsPositive (value_or v nan32)
unfolding variance_fits has_no_nan
positive1 none v f n h = absurd (nan_refuted h)
positive1 (some x) none f n h = cc
positive1 (some x) (some w) f n h = ground arith

positive2 :
    (o v : Option Vector2f)
    → variance_fits of2 o v ≡ true
    → has_no_nan of2 v ≡ true
    → IsNumber (value_or o (nan32, nan32)).0
    → let w = value_or v (nan32, nan32) in IsPositive w.0 × IsPositive w.1
unfolding variance_fits has_no_nan
positive2 none v f n h = absurd (nan_refuted h)
positive2 (some x) none f n h = cc
positive2 (some x) (some w) f n h = ground arith

positive3 :
    (o : Option Quaternionf) (v : Option Vector3f)
    → variance_fits of3 o v ≡ true
    → has_no_nan of3 v ≡ true
    → IsNumber (value_or o (nan32, nan32, nan32, nan32)).0
    → let w = value_or v (nan32, nan32, nan32) in IsPositive w.0 × IsPositive w.1 × IsPositive w.2
unfolding variance_fits has_no_nan
positive3 none v f n h = absurd (nan_refuted h)
positive3 (some x) none f n h = cc
positive3 (some x) (some w) f n h = ground arith

record Fits (m : LocalPositionMeasurement) : Type 0 where
  position_xy : variance_fits of2 m.position_xy m.position_xy_variance ≡ true
  position_z : variance_fits of1 m.position_z m.position_z_variance ≡ true
  velocity_xy : variance_fits of2 m.velocity_xy m.velocity_xy_variance ≡ true
  velocity_z : variance_fits of1 m.velocity_z m.velocity_z_variance ≡ true
  attitude : variance_fits of3 m.attitude_quaternion m.attitude_variance ≡ true

is_variance_valid-Fits : (m : LocalPositionMeasurement) → is_variance_valid m ≡ true → Fits m
unfolding is_variance_valid
is_variance_valid-Fits m h = ground arith

module _ (frames : Frames) (microseconds : ℕ → ℕ) (m : LocalPositionMeasurement) where
  pose_known :
      is_frame_valid frames microseconds m ≡ true
      → (has_value m.position_xy || has_value m.position_z) ≡ true
      → ¬ (frames.pose_frame ≡ frames.pose_frame_unknown)
  unfolding is_frame_valid
  pose_known h p e = ground arith

  velocity_known :
      is_frame_valid frames microseconds m ≡ true
      → (has_value m.velocity_xy || has_value m.velocity_z) ≡ true
      → ¬ (frames.velocity_frame ≡ frames.velocity_frame_unknown)
  unfolding is_frame_valid
  velocity_known h p e = ground arith

  first_there :
      is_measurement_non_empty m ≡ true
      → (has_value m.position_xy ≡ true)
        ⊎ ((has_value m.position_z ≡ true)
            ⊎ ((has_value m.velocity_xy ≡ true)
                ⊎ ((has_value m.velocity_z ≡ true) ⊎ (has_value m.attitude_quaternion ≡ true))))
  unfolding is_measurement_non_empty
  first_there h = elim (Bool-cases (has_value m.position_xy)) [
    | inl e ↦ inl e
    | inr e ↦ elim (Bool-cases (has_value m.position_z)) [
      | inl f ↦ inr (inl f)
      | inr f ↦ elim (Bool-cases (has_value m.velocity_xy)) [
        | inl g ↦ inr (inr (inl g))
        | inr g ↦ elim (Bool-cases (has_value m.velocity_z)) [
          | inl k ↦ inr (inr (inr (inl k)))
          | inr k ↦ inr (inr (inr (inr (ground arith))))
        ]
      ]
    ]
  ]

  message_of-IsTrusted :
      is_measurement_non_empty m ≡ true
      → Fits m
      → is_frame_valid frames microseconds m ≡ true
      → Numbers m
      → IsTrusted frames (message_of frames microseconds m)
  unfolding message_of
  message_of-IsTrusted non_empty v frame n = record {
    something = elim (first_there non_empty) [
      | inl e ↦ inl (number2 m.position_xy e n.position_xy)
      | inr (inl e) ↦ inr (inl (number1 m.position_z e n.position_z))
      | inr (inr (inl e)) ↦ inr (inr (inl (number2 m.velocity_xy e n.velocity_xy)))
      | inr (inr (inr (inl e))) ↦ inr (inr (inr (inl (number1 m.velocity_z e n.velocity_z))))
      | inr (inr (inr (inr e))) ↦
          inr (inr (inr (inr (number4 m.attitude_quaternion e n.attitude_quaternion))))
    ];
    position_xy = λ h.
        let there = there2 m.position_xy h in
        let (p, q) =
          positive2 m.position_xy m.position_xy_variance v.position_xy n.position_xy_variance h in
        (p, q, pose_known frame (ground arith));
    position_z = λ h.
        let there = there1 m.position_z h in
        (
          positive1 m.position_z m.position_z_variance v.position_z n.position_z_variance h,
          pose_known frame (ground arith),
        );
    velocity_xy = λ h.
        let there = there2 m.velocity_xy h in
        let (p, q) =
          positive2 m.velocity_xy m.velocity_xy_variance v.velocity_xy n.velocity_xy_variance h in
        (p, q, velocity_known frame (ground arith));
    velocity_z = λ h.
        let there = there1 m.velocity_z h in
        (
          positive1 m.velocity_z m.velocity_z_variance v.velocity_z n.velocity_z_variance h,
          velocity_known frame (ground arith),
        );
    attitude = positive3 m.attitude_quaternion m.attitude_variance v.attitude n.attitude_variance;
  }

  message_of_time :
      (message_of frames microseconds m).timestamp_sample ≡ microseconds m.timestamp_sample
  unfolding message_of
  message_of_time = refl

  -- If an update with a local position measurement publishes a message, and does not throw, then
  -- the message tells exactly the measurement: reading each value whose first component is a NaN
  -- as absent gives it back, and the time is that of the sample in microseconds, which is not
  -- zero. Of the message: a position, a velocity or an attitude is a number; the variances of each
  -- that is a number are numbers above zero; and if a position or a velocity is a number then its
  -- frame is not the unknown one. Nothing is said of the frame of an attitude.
  pub update-IsTrusted :
      (a : AuxLocalPosition)
      → update frames microseconds m ≡ publishes a
      → (measured m.timestamp_sample a ≡ m)
        × (a.timestamp_sample ≡ microseconds m.timestamp_sample)
        × ¬ (m.timestamp_sample ≡ 0)
        × IsTrusted frames a
  unfolding update
  update-IsTrusted a h =
      let (non_empty, variance, frame, number, time, e) =
        accepted frames microseconds (is_measurement_non_empty m) (is_variance_valid m)
          (is_frame_valid frames microseconds m) (is_value_not_nan m) (m.timestamp_sample == 0)
          (message_of frames microseconds m) a h in
      let n = is_value_not_nan-Numbers m number in
      (
        ap (measured m.timestamp_sample) (sym e) ∙ message_of-measured frames microseconds m n,
        ap (λ (a : AuxLocalPosition). a.timestamp_sample) (sym e) ∙ message_of_time,
        (λ z. ground arith),
        subst (IsTrusted frames) e
            (message_of-IsTrusted non_empty (is_variance_valid-Fits m variance) frame n),
      )
