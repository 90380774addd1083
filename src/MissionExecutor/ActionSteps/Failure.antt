-- ===== src/MissionExecutor/ActionSteps/Failure.antt =====
-- px4_ros2_cpp/src/mission/actions/default_actions.cpp: a failure whose own actions fail.
use px4_ros.Base.{ℕ, suc, ◌≡◌, refl, ap, ◌∙◌, true, false, List, [], ◌∷◌, some, ◌==◌, arith}
use px4_ros.CommandSender.{Result}
use px4_ros.Json.{JsonOps}
use px4_ros.Px4Msgs.{Px4Msgs}
use px4_ros.MissionExecutor.{
  MissionExecutor, Setup, other, Completion, Told, failure_called, schedules_mode,
}
use px4_ros.MissionExecutor.Running.{mode_completed, is_success, is_deactivated, perform, run_mode}
use px4_ros.MissionExecutor.Client.{Request, Script, react, run_requests, run_request, if_valid}
use px4_ros.MissionExecutor.ActionSteps.{Step, asks, on_failure_called, descends, gives_up}

same_handler : (h : ℕ) → (h == h) ≡ true
same_handler h = ground arith

module _ {J : Type 0} (json : JsonOps J) (setup : Setup J) where
  -- What the failure action answers, as user code of the executor.
  abbrev pub requests_of : List (Step J) → List (Request J)
  requests_of [] = []
  requests_of (asks r ∷ steps) = r ∷ requests_of steps
  requests_of (_ ∷ steps) = requests_of steps

  unfoldable pub failure_script : Px4Msgs → ℕ → Completion → Script J
  failure_script c h k (failure_called callback) s = requests_of (on_failure_called c h k callback)
  failure_script c h k _ s = []

  -- A failed mode with a failure callback.
  mode_failed :
      (tell : Told J → MissionExecutor J → MissionExecutor J) (k : Completion) (f : ℕ) (r : Result)
      (s : MissionExecutor J)
      → is_success r ≡ false
      → is_deactivated r ≡ false
      → mode_completed json setup tell k (some f) r s
        ≡ perform json setup tell (failure_called f) (record s { active_mode = 0 })
  unfolding mode_completed
  mode_failed tell k f r s r1 r2 = rw r1 (rw r2 refl)

  -- The executor once the descent is scheduled.
  abbrev descending : Px4Msgs → Completion → MissionExecutor J → MissionExecutor J
  descending c k s = record s {
    mission_item_state = other;
    active_mode = c.navigation_state_descend;
    told =
        schedules_mode c.navigation_state_descend k (some gives_up)
        ∷ failure_called descends
        ∷ s.told;
  }

  perform-descends :
      (c : Px4Msgs) (k : Completion) (fuel : ℕ) (s : MissionExecutor J)
      → s.is_active ≡ true
      → perform json setup
          (react json setup (suc (suc fuel)) (failure_script c s.action_handler k))
          (failure_called descends)
          (record s { active_mode = 0 })
        ≡ descending c k s
  unfolding perform react run_requests run_request if_valid failure_script on_failure_called
      run_mode
  perform-descends c k fuel s active = rw (same_handler s.action_handler) (rw active refl)

  perform-gives_up :
      (c : Px4Msgs) (k : Completion) (h fuel : ℕ) (s : MissionExecutor J)
      → perform json setup
          (react json setup (suc fuel) (failure_script c h k))
          (failure_called gives_up)
          s
        ≡ record s { told = failure_called gives_up ∷ s.told }
  unfolding perform react run_requests failure_script on_failure_called
  perform-gives_up c k h fuel s = refl

  -- While the executor is active, when the return that the failure action runs fails, and then the
  -- descent that it runs instead fails too, neither by being deactivated, with callbacks that
  -- nothing else answers: the first failure schedules the descent, the second is only told, and
  -- neither aborts again or invalidates the handler.
  pub failure_script-mode_completed :
      (c : Px4Msgs) (k : Completion) (r r' : Result) (fuel : ℕ) (s : MissionExecutor J)
      → s.is_active ≡ true
      → is_success r ≡ false
      → is_deactivated r ≡ false
      → is_success r' ≡ false
      → is_deactivated r' ≡ false
      → let tell = react json setup (suc (suc fuel)) (failure_script c s.action_handler k) in
        let descent = mode_completed json setup tell k (some descends) r s in
        let ended = mode_completed json setup tell k (some gives_up) r' descent in
        (descent.active_mode ≡ c.navigation_state_descend)
        × (ended.told
            ≡ failure_called gives_up
              ∷ schedules_mode c.navigation_state_descend k (some gives_up)
              ∷ failure_called descends
              ∷ s.told)
        × (ended.action_handler ≡ s.action_handler)
  failure_script-mode_completed c k r r' fuel s active r1 r2 r3 r4 =
      let tell = react json setup (suc (suc fuel)) (failure_script c s.action_handler k) in
      let first = mode_failed tell k descends r s r1 r2 ∙ perform-descends c k fuel s active in
      let second =
        mode_failed tell k gives_up r' _ r3 r4
        ∙ ap (λ t. perform json setup tell (failure_called gives_up) (record t { active_mode = 0 }))
            first
        ∙ perform-gives_up c k s.action_handler (suc fuel) _ in
      (ap (λ t. t.active_mode) first, ap (λ t. t.told) second, ap (λ t. t.action_handler) second)
