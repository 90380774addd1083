-- ===== src/MissionExecutor.antt =====
-- px4_ros2_cpp/src/mission/mission_executor.cpp: the executor that runs a mission item by item. It
-- acts on the world by what it tells others to do: it runs actions, schedules modes, starts
-- trajectories and reports. `tell` is the code that is told: it may call the executor again before
-- it returns. The completion callbacks that it is given are data, which `Running.complete` runs. An
-- action handler is a number, and the executor's current handler is the only valid one.
pub mod Stored
pub mod Feasibility
pub mod Running
pub mod Client
pub mod Persistence
pub mod Deactivation
pub mod Handlers
pub mod Aborting
pub mod ActionSteps
use px4_ros.Base.{
  ℕ, ◌+◌, ℤ, pos, Bool, true, false, List, [], ◌∷◌, Option, none, some, String, F32, if◌then◌else◌,
}
use px4_ros.Mission.{Mission, TrajectoryOptions, MissionFrame, NavigationItemType}
use px4_ros.Mission.Actions.{Actions}

pub record ActionState (J : Type 0) : Type 0 where
  pub name : String
  pub arguments : J

-- The `std::map` of continuous actions is a list of them in the order of their ids.
pub record PersistentState (J : Type 0) : Type 0 where
  pub current_index : Option ℤ
  pub mission_checksum : String
  pub continuous_actions : List (ℕ × ActionState J)

pub data MissionItemState : Type 0 where
  trajectory other : MissionItemState

pub data AbortReason : Type 0 where
  other_reason mode_failure trajectory_failure no_valid_mission action_does_not_exist : AbortReason

-- `abortReasonStr`
abbrev pub abort_reason_str : AbortReason → String
abort_reason_str other_reason = "other"
abort_reason_str mode_failure = "modeFailure"
abort_reason_str trajectory_failure = "trajectoryFailure"
abort_reason_str no_valid_mission = "noValidMission"
abort_reason_str action_does_not_exist = "actionDoesNotExist"

-- The callbacks `on_completed`, by the place that makes them. The first does nothing, the last is
-- user code; the others hold the handler at that time, and the index.
pub data Completion : Type 0 where
  does_nothing : Completion
  runs_next_item : ℕ → Completion
  resumes : ℕ → Option ℤ → Completion
  calls_user : ℕ → Completion

-- The callbacks `on_index_reached`: of a mission, and of a trajectory of an action.
pub data IndexCallback : Type 0 where
  advances : ℕ → ℤ → IndexCallback
  completes : Completion → ℤ → IndexCallback

pub record TrajectoryConfig (J : Type 0) : Type 0 where
  pub trajectory : Mission J
  pub options : TrajectoryOptions
  pub start_index : ℤ
  pub end_index : ℤ
  pub stop_at_last : Bool
  pub on_index_reached : IndexCallback

-- What others are told. A scheduled mode has its completion and perhaps a failure callback.
pub data Told (J : Type 0) : Type 0 where
  runs_action : ℕ → String → J → Completion → Told J
  schedules_mode : ℕ → Completion → Option ℕ → Told J
  takes_off : F32 → F32 → Completion → Option ℕ → Told J
  runs_trajectory : TrajectoryConfig J → Told J
  deactivates_actions activated deactivated : Told J
  calls failure_called : ℕ → Told J
  changes_activity_info : Option String → Told J

-- The reports that wait to be made: progress, completion, readiness.
pub data Report : Type 0 where
  progress : ℤ → Report
  completed : Report
  readiness : Bool → List String → Report

pub record MissionExecutor (J : Type 0) : Type 0 where
  pub mission : Mission J
  pub state : PersistentState J
  pub next_continuous_action_id : ℕ
  pub mission_item_state : MissionItemState
  pub active_mode : ℕ
  pub is_active : Bool
  pub trajectory_options : TrajectoryOptions
  pub has_valid_mission : Bool
  pub mission_errors : List String
  pub actions_ready : Bool
  pub abort_recursion_level : ℕ
  pub action_handler : ℕ
  -- The queue of `_reporting`, the oldest first.
  pub pending : List Report
  -- The content of the persistence file, if there is one.
  pub file : Option J
  -- What was told, the latest first.
  pub told : List (Told J)

-- What an executor is made with, and the world around it.
pub record Setup (J : Type 0) : Type 0 where
  pub actions : Actions J
  pub navigation_item_type_supported : NavigationItemType → Bool
  pub frame_supported : MissionFrame → Bool
  pub mode_id : ℕ
  pub mode_id_loiter : ℕ
  pub mode_id_takeoff : ℕ
  pub has_persistence_file : Bool
  -- Which callbacks of the user are set.
  pub has_on_progress_update : Bool
  pub has_on_completed : Bool
  pub has_on_readyness_update : Bool
  pub has_on_activated : Bool
  pub has_on_deactivated : Bool
  pub has_on_activity_info_change : Bool
  -- The hash of the mission's JSON, `std::to_string(std::hash…)`.
  pub checksum : Mission J → String
  -- The members of a `std::set` of strings.
  pub set_of : List String → List String
  -- The file after writing to it and after removing it.
  pub write_file : J → Option J → Option J
  pub remove_file : Option J → Option J

abbrev pub set_current_index : {J : Type 0} → Option ℤ → MissionExecutor J → MissionExecutor J
set_current_index index s = record s { state = record s.state { current_index = index } }

abbrev pub set_continuous_actions :
    {J : Type 0} → List (ℕ × ActionState J) → MissionExecutor J → MissionExecutor J
set_continuous_actions actions s = record s {
  state = record s.state { continuous_actions = actions };
}
