-- ===== src/MissionExecutor/Running/Calls.antt =====
-- px4_ros2_cpp/src/mission/mission_executor.cpp: the calls that the running of a mission makes: it tells,
-- sets the index, runs actions, modes and trajectories, and aborts.
use px4_ros.Base.{
  ℕ, ◌+◌, ◌-◌, ℤ, pos, lt_size, Bool, not, [], ◌∷◌, ◌++◌, Option, none, some, String, F32, ltb,
  ◌==◌, if◌then◌else◌, has_value, length,
}
use px4_ros.Json.{JsonOps}
use px4_ros.Mission.{Mission}
use px4_ros.MissionExecutor.{
  MissionExecutor, Setup, trajectory, other, AbortReason, other_reason, action_does_not_exist,
  abort_reason_str, Completion, does_nothing, IndexCallback, TrajectoryConfig, Told, runs_action,
  schedules_mode, takes_off, runs_trajectory, deactivates_actions, changes_activity_info, progress,
  completed, set_current_index,
}

abbrev pub max_abort_recursion_level : ℕ
max_abort_recursion_level = 10

module _ {J : Type 0} (json : JsonOps J) (setup : Setup J)
    (tell : Told J → MissionExecutor J → MissionExecutor J) where
  -- Telling is recorded first.
  unfoldable pub perform : Told J → MissionExecutor J → MissionExecutor J
  perform t s = tell t (record s { told = t ∷ s.told })

  -- `setActivityInfo`
  unfoldable pub set_activity_info : Option String → MissionExecutor J → MissionExecutor J
  set_activity_info info s =
      if setup.has_on_activity_info_change then perform (changes_activity_info info) s else s

  -- `setCurrentMissionIndex`
  unfoldable pub set_current_mission_index : ℤ → MissionExecutor J → MissionExecutor J
  set_current_mission_index index s =
      let a = set_current_index (some index) s in
      let reports =
        if not (lt_size index (length s.mission.items))
        then (if setup.has_on_completed then completed ∷ [] else [])
        else (if setup.has_on_progress_update then progress index ∷ [] else []) in
      set_activity_info none (record a { pending = a.pending ++ reports })

  unfoldable pub invalidate_action_handler : MissionExecutor J → MissionExecutor J
  invalidate_action_handler s = record s { action_handler = s.action_handler + 1 }

  -- `runAction`, with what is done when there is no such action.
  unfoldable pub run_action_or :
      (MissionExecutor J → MissionExecutor J)
      → String
      → J
      → Completion
      → MissionExecutor J
      → MissionExecutor J
  run_action_or missing name arguments k s =
      let a = record s { mission_item_state = other } in
      if not s.is_active
      then s
      else (if has_value (setup.actions name)
          then perform (runs_action a.action_handler name arguments k) a
          else missing a)

  abbrev failure_arguments : AbortReason → MissionExecutor J → J
  failure_arguments reason s =
      let j =
        json.insert "reason" (json.of_string (abort_reason_str reason))
          (json.insert "recursionLevel" (json.of_int (pos s.abort_recursion_level)) json.null) in
      elim s.state.current_index [
        | none ↦ j
        | some i ↦ json.insert "currentIndex" (json.of_int i) j
      ]

  -- The failure action. It was found before it is run, so it is not missing.
  unfoldable pub run_on_failure : AbortReason → MissionExecutor J → MissionExecutor J
  run_on_failure reason s =
      if has_value (setup.actions "onFailure")
      then run_action_or (λ t. t) "onFailure" (failure_arguments reason s) does_nothing s
      else s

  -- `abort(reason)`
  unfoldable pub abort_with : AbortReason → MissionExecutor J → MissionExecutor J
  abort_with reason s =
      let a = set_activity_info none (invalidate_action_handler s) in
      let b = perform deactivates_actions a in
      let c =
        run_on_failure reason (record b { abort_recursion_level = b.abort_recursion_level + 1 }) in
      if ltb max_abort_recursion_level a.abort_recursion_level
      then a
      else record c { abort_recursion_level = c.abort_recursion_level - 1 }

  -- `abort()`
  unfoldable pub abort : MissionExecutor J → MissionExecutor J
  abort s = if s.is_active then abort_with other_reason s else s

  unfoldable pub run_action : String → J → Completion → MissionExecutor J → MissionExecutor J
  run_action = run_action_or (abort_with action_does_not_exist)

  -- `runMode`
  unfoldable pub run_mode : ℕ → Completion → Option ℕ → MissionExecutor J → MissionExecutor J
  run_mode mode k failure s =
      if not s.is_active
      then s
      else perform (schedules_mode mode k failure)
          (record s { mission_item_state = other; active_mode = mode })

  -- `runModeTakeoff`
  unfoldable pub run_mode_takeoff :
      F32 → F32 → Completion → Option ℕ → MissionExecutor J → MissionExecutor J
  run_mode_takeoff altitude heading k failure s =
      if not s.is_active
      then s
      else perform (takes_off altitude heading k failure)
          (record s { mission_item_state = other; active_mode = setup.mode_id_takeoff })

  -- `runTrajectory`
  unfoldable pub run_trajectory :
      Mission J → ℤ → ℤ → IndexCallback → Bool → MissionExecutor J → MissionExecutor J
  run_trajectory m start_index end_index on_index_reached stop_at_last_item s =
      let config : TrajectoryConfig J = record {
        trajectory = m;
        options = s.trajectory_options;
        start_index = start_index;
        end_index = end_index;
        stop_at_last = stop_at_last_item;
        on_index_reached = on_index_reached;
      } in
      let a = perform (runs_trajectory config) s in
      let b =
        if not (a.active_mode == setup.mode_id)
        then run_mode setup.mode_id does_nothing none a
        else a in
      if not s.is_active then s else record b { mission_item_state = trajectory }
