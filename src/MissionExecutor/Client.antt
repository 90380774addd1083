-- ===== src/MissionExecutor/Client.antt =====
-- px4_ros2_cpp/include/px4_ros2/mission/mission_executor.hpp and its .cpp file: the `ActionHandler`
-- that actions are given, and user code as a script of the calls that it makes when it is told
-- something. The recursion of calls has fuel, since a deeper one would exhaust the stack.
use px4_ros.Base.{
  ℕ, zero, suc, ◌-◌, ℤ, pos, Bool, true, false, ◌&&◌, List, [], ◌∷◌, Option, none, some, String,
  F32, ◌==◌, if◌then◌else◌, length, get_elem?, is_empty, to_size,
}
use px4_ros.CommandSender.{Result}
use px4_ros.Json.{JsonOps}
use px4_ros.Mission.{
  Mission, MissionItem, navigation, action, index_valid, waypoint, TrajectoryOptions, combine_with,
}
use px4_ros.MissionExecutor.{
  MissionExecutor, Setup, ActionState, trajectory_failure, Completion, IndexCallback, completes,
  Told,
}
use px4_ros.MissionExecutor.Stored.{add_continuous_action, remove_continuous_action}
use px4_ros.MissionExecutor.Running.{
  abort, abort_with, run_action, run_mode, run_mode_takeoff, run_trajectory,
  set_current_mission_index, set_activity_info, complete, index_reached, trajectory_failed,
  mode_completed,
}

-- The calls of user code: those on an action handler, which is named by its number, then those on
-- the executor, and last its calls of the callbacks that it was given.
pub data Request (J : Type 0) : Type 0 where
  runs_mode : ℕ → ℕ → Completion → Option ℕ → Request J
  runs_mode_takeoff : ℕ → F32 → F32 → Completion → Option ℕ → Request J
  runs_named_action : ℕ → String → J → Completion → Request J
  runs_custom_trajectory : ℕ → Mission J → Completion → Bool → Request J
  sets_trajectory_options : ℕ → TrajectoryOptions → Request J
  clears_trajectory_options : ℕ → Request J
  sets_activity_info : ℕ → Option String → Request J
  sets_current_mission_index : ℤ → Request J
  stores_state : ℕ → ActionState J → Request J
  drops_state : ℕ → Request J
  aborts : Request J
  calls_completed : Completion → Request J
  calls_index_reached : IndexCallback → ℤ → Request J
  calls_trajectory_failed : Request J
  calls_mode_completed : Completion → Option ℕ → Result → Request J

abbrev pub Script : Type 0 → Type 0
Script J = Told J → MissionExecutor J → List (Request J)

module _ {J : Type 0} (json : JsonOps J) (setup : Setup J)
    (tell : Told J → MissionExecutor J → MissionExecutor J) where
  -- `if (!_valid) { return; }`
  unfoldable pub if_valid :
      ℕ → (MissionExecutor J → MissionExecutor J) → MissionExecutor J → MissionExecutor J
  if_valid handler f s = let t = f s in if handler == s.action_handler then t else s

  abbrev supported : MissionItem J → Bool
  supported (navigation item) =
      setup.navigation_item_type_supported waypoint
      && setup.frame_supported item.data_waypoint.frame
  supported (action item) = false

  abbrev pub all_supported : List (MissionItem J) → Bool
  all_supported [] = true
  all_supported (item ∷ items) = supported item && all_supported items

  -- `ActionHandler::runTrajectory`, with a valid handler.
  unfoldable pub run_custom_trajectory :
      Mission J → Completion → Bool → MissionExecutor J → MissionExecutor J
  run_custom_trajectory m k stop s =
      let end_index = pos (length m.items - 1) in
      if is_empty m.items
      then complete json setup tell k s
      else (if all_supported m.items
          then run_trajectory json setup tell m (pos 0) end_index (completes k end_index) stop s
          else abort_with json setup tell trajectory_failure s)

  -- `ActionHandler::setCurrentMissionIndex`, which checks the index and not the handler.
  unfoldable pub set_index_checked : ℤ → MissionExecutor J → MissionExecutor J
  set_index_checked i s =
      if index_valid s.mission i then set_current_mission_index json setup tell i s else s

  -- `currentActionSupportsResumeFromLanded`. Past the last item the code reads out of bounds.
  unfoldable pub current_action_supports_resume_from_landed : MissionExecutor J → Bool
  current_action_supports_resume_from_landed s = elim s.state.current_index [
    | none ↦ false
    | some i ↦ elim (get_elem? s.mission.items (to_size i)) [
      | none ↦ false
      | some item ↦ of_item item
    ]
  ]
    where
      of_item : MissionItem J → Bool
      of_item (navigation item) = false
      of_item (action item) = elim (setup.actions item.name) [
        | none ↦ false
        | some a ↦ a.supports_resume_from_landed
      ]

  unfoldable pub run_request : Request J → MissionExecutor J → MissionExecutor J
  run_request (runs_mode h mode k f) = if_valid h (run_mode json setup tell mode k f)
  run_request (runs_mode_takeoff h altitude heading k f) =
      if_valid h (run_mode_takeoff json setup tell altitude heading k f)
  run_request (runs_named_action h name arguments k) =
      if_valid h (run_action json setup tell name arguments k)
  run_request (runs_custom_trajectory h m k stop) = if_valid h (run_custom_trajectory m k stop)
  run_request (sets_trajectory_options h options) =
      if_valid h (λ s. record s { trajectory_options = combine_with s.trajectory_options options })
  run_request (clears_trajectory_options h) =
      if_valid h (λ s. record s { trajectory_options = s.mission.defaults.trajectory_options })
  run_request (sets_activity_info h info) = if_valid h (set_activity_info json setup tell info)
  run_request (sets_current_mission_index i) = set_index_checked i
  run_request (stores_state h a) = if_valid h (λ s. (add_continuous_action a s).1)
  run_request (drops_state id) = remove_continuous_action id
  run_request aborts = abort json setup tell
  run_request (calls_completed k) = complete json setup tell k
  run_request (calls_index_reached k i) = index_reached json setup tell k i
  run_request calls_trajectory_failed = trajectory_failed json setup tell
  run_request (calls_mode_completed k f r) = mode_completed json setup tell k f r

  unfoldable pub run_requests : List (Request J) → MissionExecutor J → MissionExecutor J
  run_requests [] s = s
  run_requests (r ∷ rs) s = run_requests rs (run_request r s)

unfoldable pub react :
    {J : Type 0}
    → JsonOps J
    → Setup J
    → ℕ
    → Script J
    → Told J
    → MissionExecutor J
    → MissionExecutor J
react json setup zero script t s = s
react json setup (suc fuel) script t s =
    run_requests json setup (react json setup fuel script) (script t s) s
