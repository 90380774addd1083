-- ===== src/MissionExecutor/Running.antt =====
-- px4_ros2_cpp/src/mission/mission_executor.cpp: running the mission, from its activation to its end,
-- and the callbacks; the calls that are made on the way have a module of their own.
mod Calls
use px4_ros.Base.{
  ℕ, ◌-◌, ℤ, pos, negsuc, inc, eq_int, to_size, Bool, true, false, not, ◌&&◌, ◌||◌, List, [], ◌∷◌,
  Option, none, some, str_eq, leb, ◌==◌, if◌then◌else◌, has_value, length, get_elem?,
}
use px4_ros.CommandSender.{Result, success, deactivated}
use px4_ros.Json.{JsonOps}
use px4_ros.Mission.{MissionItem, navigation, action, index_valid}
use px4_ros.Mission.Segments.{get_next_trajectory_segment}
use px4_ros.MissionExecutor.{
  MissionExecutor, Setup, ActionState, trajectory, other, mode_failure, trajectory_failure,
  no_valid_mission, Completion, does_nothing, runs_next_item, resumes, calls_user, IndexCallback,
  advances, completes, Told, runs_action, deactivates_actions, activated,
  deactivated as tells_deactivated, calls, failure_called, set_continuous_actions,
}
use px4_ros.MissionExecutor.Stored.{
  reset_mission_state, erase, clear_persistent_state, save_persistent_state,
}
use px4_ros.MissionExecutor.Feasibility.{is_ready}
unfoldable pub use px4_ros.MissionExecutor.Running.Calls.{
  max_abort_recursion_level, perform, set_activity_info, set_current_mission_index,
  invalidate_action_handler, run_action_or, run_on_failure, abort_with, abort, run_action, run_mode,
  run_mode_takeoff, run_trajectory,
}

-- Equality of optional indices.
abbrev pub same_index : Option ℤ → Option ℤ → Bool
same_index none none = true
same_index (some i) (some j) = eq_int i j
same_index none (some j) = false
same_index (some i) none = false

abbrev pub is_success : Result → Bool
is_success success = true
is_success _ = false

abbrev pub is_deactivated : Result → Bool
is_deactivated deactivated = true
is_deactivated _ = false

module _ {J : Type 0} (json : JsonOps J) (setup : Setup J)
    (tell : Told J → MissionExecutor J → MissionExecutor J) where
  abbrev action_arguments : Bool → J → J
  action_arguments resuming arguments =
      if resuming then json.insert "internal:resuming" (json.of_bool true) arguments else arguments

  -- One item: a trajectory from it, or an action.
  unfoldable pub run_item :
      ℕ → Option (MissionItem J) → Bool → MissionExecutor J → MissionExecutor J
  run_item index none resuming s = s
  run_item index (some (navigation item)) resuming s =
      let (end_index, stop) = get_next_trajectory_segment setup.actions s.mission index in
      run_trajectory json setup tell s.mission (pos index) (pos end_index)
        (advances s.action_handler (pos end_index)) stop s
  run_item index (some (action item)) resuming s =
      run_action json setup tell item.name (action_arguments resuming item.arguments)
        (runs_next_item s.action_handler) s

  -- At an index: the mission may be at its end. There is no item at an index that is not valid.
  unfoldable pub run_item_at : ℤ → Bool → MissionExecutor J → MissionExecutor J
  run_item_at index resuming s =
      if not (index_valid s.mission index)
      then (if not (s.active_mode == setup.mode_id)
          then s
          else run_mode json setup tell setup.mode_id_loiter does_nothing none s)
      else run_item (to_size index) (get_elem? s.mission.items (to_size index)) resuming s

  -- `runCurrentMissionItem`
  unfoldable pub run_current_mission_item : Bool → MissionExecutor J → MissionExecutor J
  run_current_mission_item resuming s = elim s.state.current_index [
    | none ↦ run_mode json setup tell setup.mode_id_loiter does_nothing none s
    | some index ↦ run_item_at index resuming s
  ]

  abbrev pub next_index : Option ℤ → ℤ
  next_index none = pos 0
  next_index (some i) = inc i

  -- `runNextMissionItem`
  unfoldable pub run_next_mission_item : MissionExecutor J → MissionExecutor J
  run_next_mission_item s =
      run_current_mission_item false
        (set_current_mission_index json setup tell (next_index s.state.current_index) s)

  -- `runStoredActions`, the loop over the copy of the actions.
  unfoldable pub run_stored : List (ℕ × ActionState J) → MissionExecutor J → MissionExecutor J
  run_stored [] s = s
  run_stored ((id, a) ∷ actions) s = run_stored actions (
      if has_value (setup.actions a.name) && not (str_eq a.name "onResume")
      then perform json setup tell (runs_action s.action_handler a.name a.arguments does_nothing) s
      else s)

  unfoldable pub run_stored_actions : MissionExecutor J → MissionExecutor J
  run_stored_actions s = run_stored s.state.continuous_actions (set_continuous_actions [] s)

  -- `getOnResumeStateAndClear`: the first stored state of the resume action.
  unfoldable pub find_on_resume : List (ℕ × ActionState J) → Option (ℕ × J)
  find_on_resume [] = none
  find_on_resume ((id, a) ∷ actions) =
      let found = find_on_resume actions in
      if str_eq a.name "onResume" then some (id, a.arguments) else found

  unfoldable pub get_on_resume_state_and_clear : MissionExecutor J → J × MissionExecutor J
  get_on_resume_state_and_clear s = elim (find_on_resume s.state.continuous_actions) [
    | none ↦ (json.null, s)
    | some (id, arguments) ↦
        (arguments, set_continuous_actions (erase id s.state.continuous_actions) s)
  ]

  -- `runOnResumeStoreState`
  unfoldable pub run_on_resume_store_state : MissionExecutor J → MissionExecutor J
  run_on_resume_store_state s =
      if has_value (setup.actions "onResume")
      then perform json setup tell
          (runs_action s.action_handler "onResume"
            (json.insert "action" (json.of_string "storeState") json.null) does_nothing)
          s
      else s

  -- The callback of the resume action: it may have changed the index.
  unfoldable pub resume_mission : Option ℤ → MissionExecutor J → MissionExecutor J
  resume_mission previous_index s =
      if same_index previous_index s.state.current_index
      then run_current_mission_item true (run_stored_actions s)
      else run_current_mission_item false (set_continuous_actions [] s)

  -- The completion callbacks. That of an action does nothing when its handler is not valid.
  unfoldable pub complete : Completion → MissionExecutor J → MissionExecutor J
  complete does_nothing s = s
  complete (runs_next_item handler) s =
      if handler == s.action_handler then run_next_mission_item s else s
  complete (resumes handler previous_index) s =
      if handler == s.action_handler then resume_mission previous_index s else s
  complete (calls_user k) s = perform json setup tell (calls k) s

  -- The callbacks of a trajectory.
  unfoldable pub index_reached : IndexCallback → ℤ → MissionExecutor J → MissionExecutor J
  index_reached (advances handler end_index) index s =
      let a = set_current_mission_index json setup tell (inc index) s in
      if handler == s.action_handler
      then (if eq_int index end_index then run_current_mission_item false a else a)
      else s
  index_reached (completes k end_index) index s = if eq_int index end_index then complete k s else s

  unfoldable pub trajectory_failed : MissionExecutor J → MissionExecutor J
  trajectory_failed = abort_with json setup tell trajectory_failure

  -- The callback of `runMode` and `runModeTakeoff`.
  unfoldable pub mode_completed :
      Completion → Option ℕ → Result → MissionExecutor J → MissionExecutor J
  mode_completed k failure result s =
      let a = record s { active_mode = 0 } in
      if is_success result
      then complete k s
      else (if is_deactivated result then s else elim failure [
        | none ↦ abort_with json setup tell mode_failure a
        | some f ↦ perform json setup tell (failure_called f) a
      ])

  -- `onActivate`, once the mission is known to be ready.
  unfoldable pub start_mission : MissionExecutor J → MissionExecutor J
  start_mission s =
      let start_from_beginning = not (has_value s.state.current_index) in
      let a =
        set_current_mission_index json setup tell
          (elim s.state.current_index [ none ↦ pos 0 | some i ↦ i ]) s in
      let b = if setup.has_on_activated then perform json setup tell activated a else a in
      let (arguments, c) = get_on_resume_state_and_clear b in
      if setup.has_on_activated && not (a.action_handler == b.action_handler)
      then b
      else (if not (has_value (setup.actions "onResume")) || start_from_beginning
          then run_current_mission_item (not start_from_beginning) (run_stored_actions b)
          else run_action json setup tell "onResume"
              (json.insert "action" (json.of_string "resume") arguments)
              (resumes c.action_handler c.state.current_index) c)

  unfoldable pub on_activate : MissionExecutor J → MissionExecutor J
  on_activate s =
      let a = record s {
        is_active = true;
        trajectory_options = s.mission.defaults.trajectory_options;
        mission_item_state = other;
        active_mode = setup.mode_id;
      } in
      if not (is_ready json setup a)
      then abort_with json setup tell no_valid_mission a
      else start_mission a

  -- `current_index == items.size() - 1` and `current_index >= items.size()`, on `size_t`.
  abbrev pub at_last_item : Option ℤ → ℕ → Bool
  at_last_item none size = false
  at_last_item (some i) size = to_size i == to_size (if size == 0 then negsuc 0 else pos (size - 1))

  abbrev pub past_last_item : Option ℤ → ℕ → Bool
  past_last_item none size = false
  past_last_item (some i) size = leb size (to_size i)

  -- Whether the mission counts as done: landed at the last item, or past it.
  unfoldable pub is_done : Bool → MissionExecutor J → Bool
  is_done landed s =
      let size = length s.mission.items in
      (landed && at_last_item s.state.current_index size)
      || past_last_item s.state.current_index size

  -- `onDeactivate`. The argument says whether a recent message says that the vehicle is landed.
  unfoldable pub on_deactivate : Bool → MissionExecutor J → MissionExecutor J
  on_deactivate landed s =
      let a = invalidate_action_handler json setup tell (record s { is_active = false }) in
      let b =
        if is_done landed a
        then reset_mission_state (clear_persistent_state json setup a)
        else save_persistent_state json setup (run_on_resume_store_state a) in
      let c =
        perform json setup tell deactivates_actions (set_activity_info json setup tell none b) in
      if setup.has_on_deactivated then perform json setup tell tells_deactivated c else c
