-- ===== src/MissionExecutor/Feasibility.antt =====
-- px4_ros2_cpp/src/mission/mission_executor.cpp: setting the mission, and whether it can be run.
pub mod Laws
use mathlib.Core.Bool.{false≢true}
use px4_ros.Base.{
  ◌≡◌, refl, sym, ap, ◌∙◌, ◌⊎◌, Bool, true, false, not, ◌&&◌, ◌||◌, List, [], ◌∷◌, ◌++◌, is_empty,
  Option, none, some, String, if◌then◌else◌, has_value, arith, Bool-cases, inl, inr,
}
use Prim.Native.String.{◌++◌ as concat}
use px4_ros.Json.{JsonOps}
use px4_ros.Mission.{
  Mission, MissionItem, navigation, action, ActionItem, mission_frame_str, waypoint, MissionFrame,
  empty_mission,
}
use px4_ros.Mission.Actions.{Action}
use px4_ros.MissionExecutor.{MissionExecutor, Setup, readiness}
use px4_ros.MissionExecutor.Stored.{
  has_valid_index, Loads, try_load_persistent_state_lem,
  try_load_persistent_state-has_valid_mission, reset_mission_state, try_load_persistent_state,
}

abbrev pub no_mission_errors : List String
no_mission_errors = "No mission" ∷ []

module _ {J : Type 0} (json : JsonOps J) (setup : Setup J) where
  -- The errors so far, and whether each of the two kinds that are reported once was.
  pub record Check : Type 0 where
    pub errors : List String
    pub navigation_item_unsupported : Bool
    pub frame_unsupported : Bool

  -- The checks of a waypoint in the loop of `setMission`.
  unfoldable pub report_unsupported_item : Check → Check
  report_unsupported_item k =
      if setup.navigation_item_type_supported waypoint
      then k
      else (if k.navigation_item_unsupported then k else record k {
        errors = k.errors ++ ("Mission contains unsupported navigation item: waypoint" ∷ []);
        navigation_item_unsupported = true;
      })

  unfoldable pub report_unsupported_frame : MissionFrame → Check → Check
  report_unsupported_frame frame k =
      if setup.frame_supported frame
      then k
      else (if k.frame_unsupported then k else record k {
        errors =
            k.errors
            ++ (concat "Mission contains navigation item with unsupported frame: "
                  (mission_frame_str frame)
                ∷ []);
        frame_unsupported = true;
      })

  unfoldable pub check_item : MissionItem J → Check → Check
  check_item (navigation item) k =
      report_unsupported_frame item.data_waypoint.frame (report_unsupported_item k)
  check_item (action item) k = if has_value (setup.actions item.name) then k else record k {
    errors = k.errors ++ (concat "Mission contains unknown action '" (concat item.name "'") ∷ []);
  }

  unfoldable pub check_items : List (MissionItem J) → Check → Check
  check_items [] k = k
  check_items (item ∷ items) k = check_items items (check_item item k)

  abbrev pub no_errors : Check
  no_errors = record { errors = []; navigation_item_unsupported = false; frame_unsupported = false }

  -- All the errors of a mission.
  unfoldable pub mission_errors_of : Mission J → List String
  mission_errors_of m =
      let errors = (check_items m.items no_errors).errors in
      if is_empty m.items then errors ++ ("Mission contains no mission items" ∷ []) else errors

  -- The errors of one action that is asked whether it can run.
  abbrev errors_or_default : ActionItem J → Bool × List String → List String
  errors_or_default item (true, errors) = []
  errors_or_default item (false, []) =
      concat "Action '" (concat item.name "' is not ready yet") ∷ []
  errors_or_default item (false, e ∷ errors) = e ∷ errors

  abbrev errors_of_action : ActionItem J → Option (Action J) → List String
  errors_of_action item none = []
  errors_of_action item (some a) = errors_or_default item (a.can_run item.arguments)

  unfoldable pub action_errors : List (MissionItem J) → List String
  action_errors [] = []
  action_errors (navigation item ∷ items) = action_errors items
  action_errors (action item ∷ items) =
      errors_of_action item (setup.actions item.name) ++ action_errors items

  -- The rest of `checkReadynessAndReport`, while not active.
  abbrev pub check_actions : MissionExecutor J → MissionExecutor J
  check_actions s =
      let all_action_errors = setup.set_of (action_errors s.mission.items) in
      let all_errors = s.mission_errors ++ all_action_errors in
      record s {
        actions_ready = is_empty all_action_errors;
        pending =
            if setup.has_on_readyness_update
            then s.pending ++ (readiness (is_empty all_errors) all_errors ∷ [])
            else s.pending;
      }

  -- `checkReadynessAndReport`
  unfoldable pub check_readyness_and_report : MissionExecutor J → MissionExecutor J
  check_readyness_and_report s = if s.is_active then s else check_actions s

  -- `setMission`
  abbrev pub with_mission : Mission J → MissionExecutor J → MissionExecutor J
  with_mission m s = record s {
    mission = m;
    mission_errors = mission_errors_of m;
    has_valid_mission = is_empty (mission_errors_of m);
    state = record s.state { mission_checksum = setup.checksum m };
  }

  unfoldable pub set_mission : Mission J → MissionExecutor J → MissionExecutor J
  set_mission m s =
      let (loaded, t) =
        try_load_persistent_state json setup (check_readyness_and_report (with_mission m s)) in
      if s.is_active then s else (if loaded then t else reset_mission_state t)

  -- `resetMission`
  unfoldable pub reset_mission : MissionExecutor J → MissionExecutor J
  reset_mission s =
      if s.is_active
      then s
      else reset_mission_state (record s {
        mission = empty_mission;
        has_valid_mission = false;
        mission_errors = no_mission_errors;
      })

  -- `isReady`
  abbrev pub is_ready : MissionExecutor J → Bool
  is_ready s = s.has_valid_mission && s.actions_ready
