-- ===== src/Witnesses/Actions.antt =====
-- px4_ros2_cpp/src/mission/actions/default_actions.cpp: a flight with a failing return, and settings
-- that are restored.
use px4_ros.Base.{◌≡◌, refl, [], ◌∷◌, none, some, nan32}
use px4_ros.CommandSender.{rejected, timeout}
use px4_ros.Mission.{combine_with, no_options}
use px4_ros.Mission.JsonForm.{contains, at}
use px4_ros.Mission.JsonForm.MissionRoundTrip.{converted}
use px4_ros.MissionExecutor.{calls_user, failure_called, schedules_mode}
use px4_ros.MissionExecutor.Running.{mode_completed}
use px4_ros.MissionExecutor.Client.{sets_trajectory_options, runs_mode_takeoff, run_request, react}
use px4_ros.MissionExecutor.ActionSteps.{
  asks, descends, gives_up, argument_or, stored_settings, merged, run_takeoff, run_change_settings,
}
use px4_ros.MissionExecutor.ActionSteps.Failure.{failure_script, failure_script-mode_completed}
use px4_ros.MissionExecutor.ActionSteps.Settings.{run_change_settings-stored_settings}
use px4_ros.Witnesses.Data.{px4}
use px4_ros.Witnesses.JsonValues.{lookup, null, single, with_key, json_values, json_values-JsonLaws}
use px4_ros.Witnesses.Missions.{setup, in_flight}
use px4_ros.Witnesses.MissionFiles.{options, options-AreNumbers}

failure_script-mode_completed_example :
    let tell = react json_values setup 2 (failure_script json_values setup px4 2 (calls_user 7)) in
    let descent =
      mode_completed json_values setup tell (calls_user 7) (some descends) rejected in_flight in
    let ended =
      mode_completed json_values setup tell (calls_user 7) (some gives_up) timeout descent in
    (descent.active_mode ≡ px4.navigation_state_descend)
    × (ended.told
        ≡ failure_called gives_up
          ∷ schedules_mode px4.navigation_state_descend (calls_user 7) (some gives_up)
          ∷ failure_called descends
          ∷ [])
    × (ended.action_handler ≡ 2)
failure_script-mode_completed_example =
    failure_script-mode_completed json_values setup px4 (calls_user 7) rejected timeout 0 in_flight
      refl refl refl refl refl

run_change_settings-stored_settings_example :
    (run_change_settings json_values
        (λ x. x)
        (λ x. x)
        2
        no_options
        (stored_settings json_values (λ x. x) (λ x. x) options).arguments
        (calls_user 7)
      ≡ some (
          merged json_values
            (λ x. x)
            (λ x. x)
            2
            (calls_user 7)
            (combine_with no_options
              (converted json_values json_values-JsonLaws (λ x. x) (λ x. x) options))))
    × ((run_request json_values setup
          (λ t s. s)
          (sets_trajectory_options 2 (
            combine_with no_options
              (converted json_values json_values-JsonLaws (λ x. x) (λ x. x) options)))
          in_flight).trajectory_options
        ≡ combine_with no_options
            (converted json_values json_values-JsonLaws (λ x. x) (λ x. x) options))
run_change_settings-stored_settings_example =
    run_change_settings-stored_settings json_values setup json_values-JsonLaws (λ x. x) (λ x. x)
      (λ t s. s) in_flight options 2 (calls_user 7) options-AreNumbers refl

takeoff_without_altitude :
    run_takeoff json_values 2 null (calls_user 7)
    ≡ some (asks (runs_mode_takeoff 2 nan32 nan32 (calls_user 7) none) ∷ [])
unfolding run_takeoff argument_or contains lookup
takeoff_without_altitude = refl

takeoff_to_altitude :
    run_takeoff json_values 2 (with_key "altitude" (single 0x42200000) null) (calls_user 7)
    ≡ some (asks (runs_mode_takeoff 2 0x42200000 nan32 (calls_user 7) none) ∷ [])
unfolding run_takeoff argument_or contains at lookup
takeoff_to_altitude = refl
