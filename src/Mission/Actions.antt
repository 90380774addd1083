-- ===== src/Mission/Actions.antt =====
-- px4_ros2_cpp/include/px4_ros2/mission/actions/action.hpp: what the mission executor asks of an
-- action without running it. Actions are written by users: a table of them is a parameter.
use px4_ros.Base.{Bool, List, Option, String}

pub record Action (J : Type 0) : Type 0 where
  -- `canRun`: the answer and the errors.
  pub can_run : J → Bool × List String
  pub should_stop_at_waypoint : J → Bool
  pub supports_resume_from_landed : Bool

-- The `std::map` of actions by name.
abbrev pub Actions : Type 0 → Type 0
Actions J = String → Option (Action J)
