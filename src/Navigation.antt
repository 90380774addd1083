-- ===== src/Navigation.antt =====
-- px4_ros2_cpp/src/navigation/experimental: the interfaces through which position measurements get to
-- the estimator. Floats are bit patterns. An exception is the text that it is thrown with.
pub mod Local
pub mod Global
pub mod Lossless
pub mod Trusted
use px4_ros.Base.{
  Bool, true, false, not, List, Option, none, some, any, F32, is_nan32, le_zero32, String,
}

-- What an update does: it throws `NavigationInterfaceInvalidArgument`, or it publishes.
pub data Outcome (M : Type 0) : Type 0 where
  throws : String → Outcome M
  publishes : M → Outcome M

module _ {A B : Type 0} where
  -- A value has a variance, of which no component is zero or less.
  unfoldable pub variance_fits : (B → List F32) → Option A → Option B → Bool
  variance_fits components none variance = true
  variance_fits components (some a) none = false
  variance_fits components (some a) (some v) = not (any le_zero32 (components v))

-- A value that is there has no NaN among its components.
unfoldable pub has_no_nan : {A : Type 0} → (A → List F32) → Option A → Bool
has_no_nan components none = true
has_no_nan components (some a) = not (any is_nan32 (components a))
