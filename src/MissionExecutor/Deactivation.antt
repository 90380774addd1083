-- ===== src/MissionExecutor/Deactivation.antt =====
-- The calls of user code, and a deactivation, never revive a handler.
use px4_ros.Base.{
  ℕ, zero, suc, ◌-◌, ◌<◌, pos, Bool, false, not, List, [], ◌∷◌, none, ◌==◌, if◌then◌else◌, length,
  is_empty, has_value, arith,
}
use px4_ros.Json.{JsonOps}
use px4_ros.Mission.{Mission, index_valid}
use px4_ros.MissionExecutor.{
  MissionExecutor, Setup, Completion, completes, Told, deactivates_actions, deactivated,
  trajectory_failure, other_reason,
}
use px4_ros.MissionExecutor.Stored.{
  remove_continuous_action, add_continuous_action, reset_mission_state, clear_persistent_state,
  save_persistent_state, has_valid_index, to_json,
}
use px4_ros.MissionExecutor.Running.{
  perform, set_activity_info, invalidate_action_handler, abort_with, abort, run_trajectory,
  complete, trajectory_failed, run_on_resume_store_state, on_deactivate, is_done,
}
use px4_ros.MissionExecutor.Client.{
  Request, runs_mode, runs_mode_takeoff, runs_named_action, runs_custom_trajectory,
  sets_trajectory_options, clears_trajectory_options, sets_activity_info,
  sets_current_mission_index, stores_state, drops_state, aborts, calls_completed,
  calls_index_reached, calls_trajectory_failed, calls_mode_completed, Script, if_valid,
  all_supported, run_custom_trajectory, set_index_checked, run_request, run_requests, react,
}
use px4_ros.MissionExecutor.Aborting.{
  Grows, Tame, Grows-refl, Grows-then, Grows-if, perform-Grows, set_activity_info-Grows,
  set_current_mission_index-Grows, abort_with-Outdates, run_action-Grows, run_mode-Grows,
  run_mode_takeoff-Grows, run_trajectory-Grows, complete-Grows, index_reached-Grows,
  mode_completed-Grows,
}

module _ {J : Type 0} (json : JsonOps J) (setup : Setup J)
    (tell : Told J → MissionExecutor J → MissionExecutor J) (tame : Tame tell) where
  run_custom_trajectory-Grows :
      (m : Mission J) (k : Completion) (stop : Bool) (s : MissionExecutor J)
      → Grows s (run_custom_trajectory json setup tell m k stop s)
  unfolding run_custom_trajectory
  run_custom_trajectory-Grows m k stop s =
      let e = pos (length m.items - 1) in
      let x = run_trajectory json setup tell m (pos 0) e (completes k e) stop s in
      let y = abort_with json setup tell trajectory_failure s in
      let supported = all_supported json setup tell m.items in
      Grows-if (is_empty m.items) s (complete json setup tell k s) (if supported then x else y)
        (complete-Grows json setup tell tame k s)
        (Grows-if supported s x y
          (run_trajectory-Grows json setup tell tame m (pos 0) e (completes k e) stop s)
          (abort_with-Outdates json setup tell tame trajectory_failure s).1)

  if_valid-Grows :
      (h : ℕ) (f : MissionExecutor J → MissionExecutor J)
      → ((s : MissionExecutor J) → Grows s (f s))
      → (s : MissionExecutor J) → Grows s (if_valid json setup tell h f s)
  unfolding if_valid
  if_valid-Grows h f grows s = Grows-if (h == s.action_handler) s (f s) s (grows s) (Grows-refl s)

  remove_continuous_action-Grows :
      (id : ℕ) (s : MissionExecutor J) → Grows s (remove_continuous_action id s)
  unfolding remove_continuous_action
  remove_continuous_action-Grows id s =
      Grows-if (not s.is_active) s s _ (Grows-refl s) (Grows-refl s)

  run_request-Grows :
      (r : Request J) (s : MissionExecutor J) → Grows s (run_request json setup tell r s)
  unfolding run_request set_index_checked add_continuous_action abort trajectory_failed
  run_request-Grows (runs_mode h mode k f) =
      if_valid-Grows h _ (run_mode-Grows json setup tell tame mode k f)
  run_request-Grows (runs_mode_takeoff h altitude heading k f) =
      if_valid-Grows h _ (run_mode_takeoff-Grows json setup tell tame altitude heading k f)
  run_request-Grows (runs_named_action h name arguments k) =
      if_valid-Grows h _ (run_action-Grows json setup tell tame name arguments k)
  run_request-Grows (runs_custom_trajectory h m k stop) =
      if_valid-Grows h _ (run_custom_trajectory-Grows m k stop)
  run_request-Grows (sets_trajectory_options h options) = if_valid-Grows h _ Grows-refl
  run_request-Grows (clears_trajectory_options h) = if_valid-Grows h _ Grows-refl
  run_request-Grows (sets_activity_info h info) =
      if_valid-Grows h _ (set_activity_info-Grows json setup tell tame info)
  run_request-Grows (sets_current_mission_index i) = λ s.
      Grows-if (index_valid s.mission i) s _ s
        (set_current_mission_index-Grows json setup tell tame i s) (Grows-refl s)
  run_request-Grows (stores_state h a) = if_valid-Grows h _ Grows-refl
  run_request-Grows (drops_state id) = remove_continuous_action-Grows id
  run_request-Grows aborts = λ s.
      Grows-if s.is_active s _ s (abort_with-Outdates json setup tell tame other_reason s).1
        (Grows-refl s)
  run_request-Grows (calls_completed k) = complete-Grows json setup tell tame k
  run_request-Grows (calls_index_reached k i) = index_reached-Grows json setup tell tame k i
  run_request-Grows calls_trajectory_failed =
      λ s. (abort_with-Outdates json setup tell tame trajectory_failure s).1
  run_request-Grows (calls_mode_completed k f r) = mode_completed-Grows json setup tell tame k f r

  run_requests-Grows :
      (rs : List (Request J)) (s : MissionExecutor J) → Grows s (run_requests json setup tell rs s)
  unfolding run_requests
  run_requests-Grows [] s = Grows-refl s
  run_requests-Grows (r ∷ rs) s =
      Grows-then (run_requests json setup tell rs) (run_requests-Grows rs) s
        (run_request json setup tell r s) (run_request-Grows r s)

  -- The parts of a deactivation.
  clear_persistent_state-Grows :
      (s : MissionExecutor J) → Grows s (clear_persistent_state json setup s)
  unfolding clear_persistent_state
  clear_persistent_state-Grows s =
      Grows-if setup.has_persistence_file s _ s (Grows-refl s) (Grows-refl s)

  save_persistent_state-Grows :
      (s : MissionExecutor J) → Grows s (save_persistent_state json setup s)
  unfolding save_persistent_state
  save_persistent_state-Grows s =
      let x = clear_persistent_state json setup s in
      let y = record s { file = setup.write_file (to_json json s.state) s.file } in
      let bad = not (has_valid_index json setup s.mission s.state.current_index) in
      Grows-if (not setup.has_persistence_file) s s (if bad then x else y) (Grows-refl s)
        (Grows-if bad s x y (clear_persistent_state-Grows s) (Grows-refl s))

  run_on_resume_store_state-Grows :
      (s : MissionExecutor J) → Grows s (run_on_resume_store_state json setup tell s)
  unfolding run_on_resume_store_state
  run_on_resume_store_state-Grows s =
      Grows-if (has_value (setup.actions "onResume")) s _ s (perform-Grows json setup tell tame _ s)
        (Grows-refl s)

  pub on_deactivate-action_handler :
      (landed : Bool) (s : MissionExecutor J)
      → s.action_handler < (on_deactivate json setup tell landed s).action_handler
  unfolding on_deactivate reset_mission_state invalidate_action_handler
  on_deactivate-action_handler landed s =
      let a = invalidate_action_handler json setup tell (record s { is_active = false }) in
      let x = reset_mission_state (clear_persistent_state json setup a) in
      let stored = run_on_resume_store_state json setup tell a in
      let y = save_persistent_state json setup stored in
      let b = if is_done json setup tell landed a then x else y in
      let i = set_activity_info json setup tell none b in
      let c = perform json setup tell deactivates_actions i in
      let to_b : Grows a b =
        Grows-if (is_done json setup tell landed a) a x y (clear_persistent_state-Grows a) (
          Grows-then (save_persistent_state json setup) save_persistent_state-Grows a stored
            (run_on_resume_store_state-Grows a)) in
      let to_i =
        Grows-then (set_activity_info json setup tell none)
          (set_activity_info-Grows json setup tell tame none) a b to_b in
      let to_c =
        Grows-then (perform json setup tell deactivates_actions)
          (perform-Grows json setup tell tame deactivates_actions) a i to_i in
      let d = perform json setup tell deactivated c in
      let to_d =
        Grows-then (perform json setup tell deactivated)
          (perform-Grows json setup tell tame deactivated) a c to_c in
      let (h, l, active) = Grows-if setup.has_on_deactivated a d c to_d to_c in omega arith

-- Whatever user code does when it is told something, its calls are such calls.
pub react-Tame :
    {J : Type 0}
    → (json : JsonOps J) (setup : Setup J) (fuel : ℕ) (script : Script J)
    → Tame (react json setup fuel script)
unfolding react
react-Tame json setup zero script t s = Grows-refl s
react-Tame json setup (suc fuel) script t s =
    run_requests-Grows json setup (react json setup fuel script) (react-Tame json setup fuel script)
      (script t s) s
