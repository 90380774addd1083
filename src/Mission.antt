-- ===== src/Mission.antt =====
-- px4_ros2_cpp/include/px4_ros2/mission/mission.hpp: missions, as they are held in memory. The
-- arguments of an action are a JSON value of the vendored JSON library: the type `J` is a parameter.
pub mod Segments
pub mod Actions
pub mod DefaultActions
pub mod JsonForm
use px4_ros.Base.{
  ℕ, ℤ, pos, negsuc, Bool, true, false, List, [], Option, none, some, F32, F64, String, length, ltb,
}

pub data MissionFrame : Type 0 where
  global : MissionFrame

pub data NavigationItemType : Type 0 where
  waypoint : NavigationItemType

-- `missionFrameStr`
abbrev pub mission_frame_str : MissionFrame → String
mission_frame_str global = "global"

pub record Waypoint : Type 0 where
  pub coordinate : F64 × F64 × F64
  pub frame : MissionFrame

-- The variant `data` has one alternative.
pub record NavigationItem : Type 0 where
  pub id : String
  pub data_waypoint : Waypoint

pub record ActionItem (J : Type 0) : Type 0 where
  pub name : String
  pub id : String
  pub arguments : J

pub data MissionItem (J : Type 0) : Type 0 where
  navigation : NavigationItem → MissionItem J
  action : ActionItem J → MissionItem J

pub record TrajectoryOptions : Type 0 where
  pub horizontal_velocity : Option F32
  pub vertical_velocity : Option F32
  pub max_heading_rate : Option F32

abbrev pub no_options : TrajectoryOptions
no_options = record {
  horizontal_velocity = none;
  vertical_velocity = none;
  max_heading_rate = none;
}

abbrev pub overridden_by : Option F32 → Option F32 → Option F32
overridden_by old (some x) = some x
overridden_by old none = old

-- `TrajectoryOptions::combineWith`
unfoldable pub combine_with : TrajectoryOptions → TrajectoryOptions → TrajectoryOptions
combine_with o options = record {
  horizontal_velocity = overridden_by o.horizontal_velocity options.horizontal_velocity;
  vertical_velocity = overridden_by o.vertical_velocity options.vertical_velocity;
  max_heading_rate = overridden_by o.max_heading_rate options.max_heading_rate;
}

pub record MissionDefaults : Type 0 where
  pub trajectory_options : TrajectoryOptions

pub record Mission (J : Type 0) : Type 0 where
  pub defaults : MissionDefaults
  pub items : List (MissionItem J)

abbrev pub empty_mission : {J : Type 0} → Mission J
empty_mission = record { defaults = record { trajectory_options = no_options }; items = [] }

-- `Mission::indexValid`
unfoldable pub index_valid : {J : Type 0} → Mission J → ℤ → Bool
index_valid m (pos n) = ltb n (length m.items)
index_valid m (negsuc n) = false
