-- ===== src/MissionExecutor/ActionSteps.antt =====
-- px4_ros2_cpp/include/px4_ros2/mission/actions/default_actions.hpp and its .cpp file: the default
-- actions but the one that resumes, as what they do in order; what throws gives nothing. They act on
-- the executor through their handler, and on their own timer and stored state.
pub mod Settings
pub mod Failure
use px4_ros.Base.{
  ℕ, Bool, true, false, List, [], ◌∷◌, Option, none, some, String, F32, nan32, ◌==◌, if◌then◌else◌,
  ◌>>=◌,
}
use px4_ros.Json.{JsonOps}
use px4_ros.Px4Msgs.{Px4Msgs}
use px4_ros.Mission.{TrajectoryOptions}
use px4_ros.Mission.JsonForm.{contains, at, options_to_json}
use px4_ros.MissionExecutor.{MissionExecutor, Setup, ActionState, Completion, does_nothing, Told}
use px4_ros.MissionExecutor.Stored.{add_continuous_action, remove_continuous_action}
use px4_ros.MissionExecutor.Client.{
  Request, runs_mode, runs_mode_takeoff, sets_trajectory_options, clears_trajectory_options,
  calls_completed, run_request,
}

-- A call, the start of the timer with its duration, and what is assigned to the timer and to the
-- stored state.
pub data Step (J : Type 0) : Type 0 where
  asks : Request J → Step J
  starts_timer : F32 → Completion → Step J
  stops_timer : Step J
  keeps_state : ActionState J → Step J
  releases_state : Step J

-- The executor, with the timer of an action and the token of its stored state.
pub record World (J : Type 0) : Type 0 where
  pub executor : MissionExecutor J
  pub timer : Option (F32 × Completion)
  pub keeper : Option ℕ

-- The two failure callbacks of `OnFailure`, by number.
abbrev pub descends : ℕ
descends = 0

abbrev pub gives_up : ℕ
gives_up = 1

module _ {J : Type 0} where
  -- `Rtl::run` and `Land::run`
  unfoldable pub run_rtl : Px4Msgs → ℕ → Completion → List (Step J)
  run_rtl c h k = asks (runs_mode h c.navigation_state_auto_rtl k none) ∷ []

  unfoldable pub run_land : Px4Msgs → ℕ → Completion → List (Step J)
  run_land c h k = asks (runs_mode h c.navigation_state_auto_land k none) ∷ []

  -- `OnFailure::run`, and its failure callbacks.
  unfoldable pub run_on_failure : Px4Msgs → ℕ → Completion → List (Step J)
  run_on_failure c h k = asks (runs_mode h c.navigation_state_auto_rtl k (some descends)) ∷ []

  unfoldable pub on_failure_called : Px4Msgs → ℕ → Completion → ℕ → List (Step J)
  on_failure_called c h k callback =
      if callback == descends
      then asks (runs_mode h c.navigation_state_descend k (some gives_up)) ∷ []
      else []

  -- The timer of `Hold` expires, and `Hold::deactivate`.
  unfoldable pub hold_expired : Completion → List (Step J)
  hold_expired k = stops_timer ∷ asks (calls_completed k) ∷ []

  abbrev pub hold_deactivate : List (Step J)
  hold_deactivate = stops_timer ∷ []

  -- `ChangeSettings::deactivate`
  abbrev pub change_settings_deactivate : List (Step J)
  change_settings_deactivate = releases_state ∷ []

module _ {J : Type 0} (json : JsonOps J) where
  -- An argument that may be missing.
  unfoldable pub argument_or {ℓ} : {A : Type ℓ} → (J → Option A) → A → J → String → Option A
  argument_or get default arguments key =
      if contains json arguments key then at json get arguments key else some default

  -- `Takeoff::run`
  unfoldable pub run_takeoff : ℕ → J → Completion → Option (List (Step J))
  run_takeoff h arguments k = do
    altitude ← argument_or json.to_float nan32 arguments "altitude"
    some (asks (runs_mode_takeoff h altitude nan32 k none) ∷ [])

  -- `Hold::run`: a second, unless it is said how long.
  unfoldable pub run_hold : Px4Msgs → ℕ → J → Completion → Option (List (Step J))
  run_hold c h arguments k = do
    duration ← argument_or json.to_float 0x3f800000 arguments "duration"
    some (
        asks (runs_mode h c.navigation_state_auto_loiter does_nothing none)
        ∷ starts_timer duration k
        ∷ [])

  -- One of the options: the argument if there is one.
  unfoldable pub setting : (F32 → F32) → Option F32 → J → String → Option (Option F32)
  setting convert old arguments key =
      if contains json arguments key
      then (at json json.to_float arguments key >>= λ x. some (some (convert x)))
      else some old

  module _ (deg_to_rad rad_to_deg : F32 → F32) where
    unfoldable pub merge_settings : TrajectoryOptions → J → Option TrajectoryOptions
    merge_settings options arguments = do
      horizontal ← setting (λ x. x) options.horizontal_velocity arguments "horizontalVelocity"
      vertical ← setting (λ x. x) options.vertical_velocity arguments "verticalVelocity"
      rate ← setting deg_to_rad options.max_heading_rate arguments "maxHeadingRate"
      some (record {
        horizontal_velocity = horizontal;
        vertical_velocity = vertical;
        max_heading_rate = rate;
      })

    unfoldable pub stored_settings : TrajectoryOptions → ActionState J
    stored_settings options = record {
      name = "changeSettings";
      arguments = options_to_json json deg_to_rad rad_to_deg options;
    }

    abbrev pub merged : ℕ → Completion → TrajectoryOptions → List (Step J)
    merged h k options =
        asks (sets_trajectory_options h options)
        ∷ keeps_state (stored_settings options)
        ∷ asks (calls_completed k)
        ∷ []

    unfoldable pub reset_or_merge :
        Bool → ℕ → TrajectoryOptions → J → Completion → Option (List (Step J))
    reset_or_merge true h options arguments k =
        some (asks (clears_trajectory_options h) ∷ releases_state ∷ asks (calls_completed k) ∷ [])
    reset_or_merge false h options arguments k =
        merge_settings options arguments >>= λ o. some (merged h k o)

    -- `ChangeSettings::run`, with what `getTrajectoryOptions` gives.
    unfoldable pub run_change_settings :
        ℕ → TrajectoryOptions → J → Completion → Option (List (Step J))
    run_change_settings h options arguments k = do
      reset_all ← argument_or json.to_bool false arguments "resetAll"
      reset_or_merge reset_all h options arguments k

module _ {J : Type 0} (json : JsonOps J) (setup : Setup J)
    (tell : Told J → MissionExecutor J → MissionExecutor J) where
  -- The destructor of the token.
  unfoldable pub release : Option ℕ → MissionExecutor J → MissionExecutor J
  release none s = s
  release (some id) s = remove_continuous_action id s

  -- `storeState` through the handler, and its assignment, which destroys the old token last.
  unfoldable pub keep_state : ℕ → ActionState J → World J → World J
  keep_state h a w =
      let (id, s) = add_continuous_action a w.executor in
      if h == w.executor.action_handler
      then record w { executor = release w.keeper s; keeper = some id }
      else record w { executor = release w.keeper w.executor; keeper = none }

  unfoldable pub run_step : ℕ → Step J → World J → World J
  run_step h (asks r) w = record w { executor = run_request json setup tell r w.executor }
  run_step h (starts_timer duration k) w = record w { timer = some (duration, k) }
  run_step h stops_timer w = record w { timer = none }
  run_step h (keeps_state a) w = keep_state h a w
  run_step h releases_state w = record w { executor = release w.keeper w.executor; keeper = none }

  unfoldable pub run_steps : ℕ → List (Step J) → World J → World J
  run_steps h [] w = w
  run_steps h (step ∷ steps) w = run_steps h steps (run_step h step w)
