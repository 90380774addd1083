-- ===== src/Witnesses/Missions.antt =====
-- A mission with a takeoff, two waypoints and a landing, and user code that aborts it.
use px4_ros.Base.{
  ◌≡◌, refl, true, false, [], ◌∷◌, none, some, List, String, pos, str_eq, arith, if◌then◌else◌,
}
use px4_ros.Mission.{index_valid, Mission, MissionItem, navigation, action, global, no_options}
use px4_ros.Mission.Actions.{Action, Actions}
use px4_ros.Mission.DefaultActions.{
  on_resume, navigate_to_previous_waypoint, runs_takeoff, flies_to, on_resume-takeoff,
  navigate_to_previous_waypoint_lem,
}
use px4_ros.Mission.Segments.{
  IsSegment, get_next_trajectory_segment, get_next_trajectory_segment_lem,
}
use px4_ros.MissionExecutor.{
  calls_user, MissionExecutor, Setup, Told, runs_action, other, other_reason, mode_failure,
}
use px4_ros.MissionExecutor.Stored.{to_json, try_load_persistent_state, save_persistent_state}
use px4_ros.MissionExecutor.Feasibility.{set_mission}
use px4_ros.MissionExecutor.Feasibility.Laws.{
  is_feasible, IsPlaced, set_mission-has_valid_mission, set_mission-IsPlaced,
}
use px4_ros.MissionExecutor.Running.{abort_with, on_deactivate}
use px4_ros.MissionExecutor.Client.{run_request, aborts, runs_mode, Script, react}
use px4_ros.MissionExecutor.Aborting.{Outdates, abort_with-Outdates}
use px4_ros.MissionExecutor.Handlers.{on_deactivate-Ignores, abort_with-Ignores}
use px4_ros.MissionExecutor.Deactivation.{react-Tame}
use px4_ros.MissionExecutor.Persistence.{
  renumbered, try_load_persistent_state-save_persistent_state,
}
use px4_ros.Witnesses.JsonValues.{JsonValue, null, json_values, json_values-JsonLaws}

abbrev waypoint_item : MissionItem JsonValue
waypoint_item =
    navigation
      (record { id = ""; data_waypoint = record { coordinate = (0, 0, 0); frame = global } })

abbrev action_item : String → MissionItem JsonValue
action_item name = action (record { name = name; id = ""; arguments = null })

abbrev survey : Mission JsonValue
survey = record {
  defaults = record { trajectory_options = no_options };
  items = action_item "takeoff" ∷ waypoint_item ∷ waypoint_item ∷ action_item "land" ∷ [];
}

abbrev ready_action : Action JsonValue
ready_action = record {
  can_run = λ j. (true, []);
  should_stop_at_waypoint = λ j. true;
  supports_resume_from_landed = false;
}

abbrev actions : Actions JsonValue
actions name =
    if str_eq name "takeoff"
    then some ready_action
    else (if str_eq name "land"
        then some ready_action
        else (if str_eq name "onFailure" then some ready_action else none))

abbrev pub setup : Setup JsonValue
setup = record {
  actions = actions;
  navigation_item_type_supported = λ t. true;
  frame_supported = λ f. true;
  mode_id = 23;
  mode_id_loiter = 4;
  mode_id_takeoff = 17;
  has_persistence_file = true;
  has_on_progress_update = true;
  has_on_completed = true;
  has_on_readyness_update = true;
  has_on_activated = true;
  has_on_deactivated = true;
  has_on_activity_info_change = true;
  checksum = λ m. "42";
  set_of = λ xs. xs;
  write_file = λ j f. some j;
  remove_file = λ f. none;
}

-- In flight to the second item, with one continuous action.
abbrev pub in_flight : MissionExecutor JsonValue
in_flight = record {
  mission = survey;
  state = record {
    current_index = some (pos 1);
    mission_checksum = "42";
    continuous_actions = (3, record { name = "camera"; arguments = null }) ∷ [];
  };
  next_continuous_action_id = 4;
  mission_item_state = other;
  active_mode = 23;
  is_active = true;
  trajectory_options = no_options;
  has_valid_mission = true;
  mission_errors = [];
  actions_ready = true;
  abort_recursion_level = 0;
  action_handler = 2;
  pending = [];
  file = none;
  told = [];
}

abbrev idle : MissionExecutor JsonValue
idle = record in_flight { is_active = false }

-- The failure action aborts again at once.
abbrev script : Script JsonValue
script (runs_action h name arguments k) s = aborts ∷ runs_mode h 5 k none ∷ []
script _ s = []

abbrev user : Told JsonValue → MissionExecutor JsonValue → MissionExecutor JsonValue
user = react json_values setup 6 script

get_next_trajectory_segment_example :
    IsSegment actions survey.items 1 (get_next_trajectory_segment actions survey 1)
get_next_trajectory_segment_example = get_next_trajectory_segment_lem actions survey 1 (omega arith)

set_mission-has_valid_mission_example :
    (set_mission json_values setup survey idle).has_valid_mission
    ≡ is_feasible json_values setup survey
set_mission-has_valid_mission_example =
    set_mission-has_valid_mission json_values setup survey idle refl

set_mission-IsPlaced_example :
    IsPlaced json_values setup survey (set_mission json_values setup survey idle)
set_mission-IsPlaced_example = set_mission-IsPlaced json_values setup survey idle refl

try_load-save_example :
    try_load_persistent_state json_values setup (save_persistent_state json_values setup in_flight)
    ≡ (
      true,
      record in_flight {
        file = some (to_json json_values in_flight.state);
        state = renumbered in_flight.state;
      },
    )
unfolding index_valid
try_load-save_example =
    try_load_persistent_state-save_persistent_state json_values json_values-JsonLaws setup in_flight
      refl (λ j f. refl) refl refl

on_deactivate-Ignores_example :
    run_request json_values setup user
      (runs_mode 2 5 (calls_user 7) none)
      (on_deactivate json_values setup user false in_flight)
    ≡ on_deactivate json_values setup user false in_flight
on_deactivate-Ignores_example =
    on_deactivate-Ignores json_values setup user (react-Tame json_values setup 6 script) false 2
      in_flight (omega arith) (on_deactivate json_values setup user false in_flight)
      (runs_mode 2 5 (calls_user 7) none) (omega arith) refl

abort_with-Ignores_example :
    run_request json_values setup user
      (runs_mode 2 5 (calls_user 7) none)
      (abort_with json_values setup user mode_failure in_flight)
    ≡ abort_with json_values setup user mode_failure in_flight
abort_with-Ignores_example =
    abort_with-Ignores json_values setup user (react-Tame json_values setup 6 script) mode_failure 2
      in_flight (omega arith) (abort_with json_values setup user mode_failure in_flight)
      (runs_mode 2 5 (calls_user 7) none) (omega arith) refl

abort_with-Outdates_example :
    Outdates in_flight (abort_with json_values setup user other_reason in_flight)
abort_with-Outdates_example =
    abort_with-Outdates json_values setup user (react-Tame json_values setup 6 script) other_reason
      in_flight

-- Resumed at the landing after an unexpected one before it.
abbrev survey_front : List (MissionItem JsonValue)
survey_front = []

on_resume-takeoff_example :
    on_resume "resume" (some (pos 2)) true false survey
    ≡ runs_takeoff (record { name = "takeoff"; id = ""; arguments = null })
on_resume-takeoff_example =
    on_resume-takeoff survey 1 survey_front (waypoint_item ∷ [])
      (record { name = "takeoff"; id = ""; arguments = null }) refl refl refl tt

navigate_to_previous_waypoint_example :
    navigate_to_previous_waypoint survey (pos 2)
    ≡ flies_to (record { coordinate = (0, 0, 0); frame = global })
navigate_to_previous_waypoint_example =
    navigate_to_previous_waypoint_lem survey 2 (action_item "takeoff" ∷ []) []
      (record { id = ""; data_waypoint = record { coordinate = (0, 0, 0); frame = global } }) refl
      refl
