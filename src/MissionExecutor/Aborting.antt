-- ===== src/MissionExecutor/Aborting.antt =====
-- No call of the executor changes whether it is active or the level of nested aborts, whatever user
-- code does in between, and action handlers only ever get new numbers.
use px4_ros.Base.{
  ℕ, ◌+◌, ◌-◌, ◌≤◌, ◌<◌, ◌≡◌, refl, ◌∙◌, ℤ, inc, eq_int, Bool, true, false, not, ◌&&◌, List, [],
  ◌∷◌, Option, none, some, String, F32, ◌==◌, ltb, if◌then◌else◌, has_value, arith, str_eq,
}
use px4_ros.CommandSender.{Result}
use px4_ros.Json.{JsonOps}
use px4_ros.Mission.{Mission, MissionItem, navigation, action}
use px4_ros.MissionExecutor.{
  MissionExecutor, Setup, ActionState, AbortReason, Completion, does_nothing, runs_next_item,
  resumes, calls_user, IndexCallback, advances, completes, Told, failure_called, runs_action,
  mode_failure, TrajectoryConfig, trajectory, deactivates_actions, runs_trajectory,
  set_continuous_actions,
}
use px4_ros.MissionExecutor.Running.{
  max_abort_recursion_level, perform, set_activity_info, set_current_mission_index, next_index,
  invalidate_action_handler, run_action_or, run_on_failure, abort_with, run_action, run_mode,
  run_mode_takeoff, run_trajectory, run_item, run_item_at, run_current_mission_item,
  run_next_mission_item, run_stored, run_stored_actions, resume_mission, complete, index_reached,
  mode_completed, same_index, is_success, is_deactivated,
}

-- Handlers get new numbers, and the level of aborts and the activity stay.
abbrev pub Grows : {J : Type 0} → MissionExecutor J → MissionExecutor J → Type 0
Grows s t =
    (s.action_handler ≤ t.action_handler)
    × (t.abort_recursion_level ≡ s.abort_recursion_level)
    × (t.is_active ≡ s.is_active)

abbrev pub Tame : {J : Type 0} → (Told J → MissionExecutor J → MissionExecutor J) → Type 0
Tame {J} tell = (t : Told J) (s : MissionExecutor J) → Grows s (tell t s)

module _ {J : Type 0} where
  pub Grows-refl : (s : MissionExecutor J) → Grows s s
  Grows-refl s = (omega arith, refl, refl)

  pub Grows-trans : (s t u : MissionExecutor J) → Grows s t → Grows t u → Grows s u
  Grows-trans s t u (h, l, a) (h', l', a') = (omega arith, l' ∙ l, a' ∙ a)

  pub Grows-then :
      (f : MissionExecutor J → MissionExecutor J)
      → ((s : MissionExecutor J) → Grows s (f s))
      → (s t : MissionExecutor J) → Grows s t
      → Grows s (f t)
  Grows-then f grows s t first = Grows-trans s t (f t) first (grows t)

  pub Grows-if :
      (b : Bool) (s x y : MissionExecutor J) → Grows s x → Grows s y → Grows s (if b then x else y)
  Grows-if true s x y p q = p
  Grows-if false s x y p q = q

-- So that no older handler is valid any more.
abbrev pub Outdates : {J : Type 0} → MissionExecutor J → MissionExecutor J → Type 0
Outdates s t = (s.action_handler < t.action_handler) × Grows s t

Outdates-if :
    {J : Type 0}
    → (b : Bool) (s x y : MissionExecutor J) → Outdates s x
    → Outdates s y
    → Outdates s (if b then x else y)
Outdates-if true s x y p q = p
Outdates-if false s x y p q = q

module _ {J : Type 0} (json : JsonOps J) (setup : Setup J)
    (tell : Told J → MissionExecutor J → MissionExecutor J) (tame : Tame tell) where
  pub perform-Grows : (t : Told J) (s : MissionExecutor J) → Grows s (perform json setup tell t s)
  unfolding perform
  perform-Grows t s = tame t (record s { told = t ∷ s.told })

  pub set_activity_info-Grows :
      (info : Option String) (s : MissionExecutor J)
      → Grows s (set_activity_info json setup tell info s)
  unfolding set_activity_info
  set_activity_info-Grows info s = Grows-if _ s _ s (perform-Grows _ s) (Grows-refl s)

  pub set_current_mission_index-Grows :
      (i : ℤ) (s : MissionExecutor J) → Grows s (set_current_mission_index json setup tell i s)
  unfolding set_current_mission_index
  set_current_mission_index-Grows i s = set_activity_info-Grows none _

  pub run_action_or-Grows :
      (missing : MissionExecutor J → MissionExecutor J)
      → ((s : MissionExecutor J) → Grows s (missing s))
      → (name : String) (arguments : J) (k : Completion) (s : MissionExecutor J)
      → Grows s (run_action_or json setup tell missing name arguments k s)
  unfolding run_action_or
  run_action_or-Grows missing grows name arguments k s =
      Grows-if (not s.is_active) s s _ (Grows-refl s)
        (Grows-if _ s _ _ (perform-Grows _ _) (grows _))

  pub run_on_failure-Grows :
      (reason : AbortReason) (s : MissionExecutor J)
      → Grows s (run_on_failure json setup tell reason s)
  unfolding run_on_failure
  run_on_failure-Grows reason s =
      Grows-if _ s _ s (run_action_or-Grows (λ t. t) Grows-refl _ _ does_nothing s) (Grows-refl s)

  -- If user code keeps the level of nested aborts and the activity and never revives a handler, an
  -- abort, for any reason and at any level, keeps that level and the activity, and gives the
  -- executor a handler that is newer than the one before.
  pub abort_with-Outdates :
      (reason : AbortReason) (s : MissionExecutor J)
      → Outdates s (abort_with json setup tell reason s)
  unfolding abort_with invalidate_action_handler
  abort_with-Outdates reason s =
      let i = invalidate_action_handler json setup tell s in
      let a = set_activity_info json setup tell none i in
      let b = perform json setup tell deactivates_actions a in
      let d = record b { abort_recursion_level = b.abort_recursion_level + 1 } in
      let c = run_on_failure json setup tell reason d in
      let (ha, la, aa) = set_activity_info-Grows none i in
      let (hb, lb, ab) = perform-Grows deactivates_actions a in
      let (hc, lc, ac) = run_on_failure-Grows reason d in
      Outdates-if (ltb max_abort_recursion_level a.abort_recursion_level) s a
        (record c { abort_recursion_level = c.abort_recursion_level - 1 })
        (omega arith, (omega arith, la, aa)) (omega arith, (omega arith, omega arith, ac ∙ ab ∙ aa))

  pub run_action-Grows :
      (name : String) (arguments : J) (k : Completion) (s : MissionExecutor J)
      → Grows s (run_action json setup tell name arguments k s)
  unfolding run_action
  run_action-Grows = run_action_or-Grows _ (λ s. (abort_with-Outdates _ s).1)

  pub run_mode-Grows :
      (mode : ℕ) (k : Completion) (failure : Option ℕ) (s : MissionExecutor J)
      → Grows s (run_mode json setup tell mode k failure s)
  unfolding run_mode
  run_mode-Grows mode k failure s =
      Grows-if (not s.is_active) s s _ (Grows-refl s) (perform-Grows _ _)

  pub run_mode_takeoff-Grows :
      (altitude heading : F32) (k : Completion) (failure : Option ℕ) (s : MissionExecutor J)
      → Grows s (run_mode_takeoff json setup tell altitude heading k failure s)
  unfolding run_mode_takeoff
  run_mode_takeoff-Grows altitude heading k failure s =
      Grows-if (not s.is_active) s s _ (Grows-refl s) (perform-Grows _ _)

  pub run_trajectory-Grows :
      (m : Mission J) (i j : ℤ) (k : IndexCallback) (stop : Bool) (s : MissionExecutor J)
      → Grows s (run_trajectory json setup tell m i j k stop s)
  unfolding run_trajectory
  run_trajectory-Grows m i j k stop s =
      let config : TrajectoryConfig J = record {
        trajectory = m;
        options = s.trajectory_options;
        start_index = i;
        end_index = j;
        stop_at_last = stop;
        on_index_reached = k;
      } in
      let a = perform json setup tell (runs_trajectory config) s in
      let r = run_mode json setup tell setup.mode_id does_nothing none a in
      let first = perform-Grows (runs_trajectory config) s in
      let both = Grows-trans s a r first (run_mode-Grows setup.mode_id does_nothing none a) in
      let differs = not (a.active_mode == setup.mode_id) in
      let b = if differs then r else a in
      Grows-if (not s.is_active) s s (record b { mission_item_state = trajectory }) (Grows-refl s)
        (Grows-if differs s r a both first)

  pub run_item-Grows :
      (i : ℕ) (item : Option (MissionItem J)) (resuming : Bool) (s : MissionExecutor J)
      → Grows s (run_item json setup tell i item resuming s)
  unfolding run_item
  run_item-Grows i none resuming s = Grows-refl s
  run_item-Grows i (some (navigation item)) resuming s = run_trajectory-Grows _ _ _ _ _ s
  run_item-Grows i (some (action item)) resuming s = run_action-Grows _ _ _ s

  pub run_item_at-Grows :
      (i : ℤ) (resuming : Bool) (s : MissionExecutor J)
      → Grows s (run_item_at json setup tell i resuming s)
  unfolding run_item_at
  run_item_at-Grows i resuming s =
      Grows-if _ s _ _ (Grows-if _ s s _ (Grows-refl s) (run_mode-Grows _ _ _ s))
        (run_item-Grows _ _ resuming s)

  pub run_current_mission_item-Grows :
      (resuming : Bool) (s : MissionExecutor J)
      → Grows s (run_current_mission_item json setup tell resuming s)
  unfolding run_current_mission_item
  run_current_mission_item-Grows resuming s = go s.state.current_index
    where
      go :
          (o : Option ℤ)
          → Grows s (elim o [
            | none ↦ run_mode json setup tell setup.mode_id_loiter does_nothing none s
            | some i ↦ run_item_at json setup tell i resuming s
          ])
      go none = run_mode-Grows _ _ _ s
      go (some i) = run_item_at-Grows i resuming s

  pub run_next_mission_item-Grows :
      (s : MissionExecutor J) → Grows s (run_next_mission_item json setup tell s)
  unfolding run_next_mission_item
  run_next_mission_item-Grows s =
      let i = next_index json setup tell s.state.current_index in
      let a = set_current_mission_index json setup tell i s in
      Grows-then (run_current_mission_item json setup tell false)
        (run_current_mission_item-Grows false) s a (set_current_mission_index-Grows i s)

  pub run_stored-Grows :
      (actions : List (ℕ × ActionState J)) (s : MissionExecutor J)
      → Grows s (run_stored json setup tell actions s)
  unfolding run_stored
  run_stored-Grows [] s = Grows-refl s
  run_stored-Grows ((id, a) ∷ actions) s =
      let t = runs_action s.action_handler a.name a.arguments does_nothing in
      let known = has_value (setup.actions a.name) && not (str_eq a.name "onResume") in
      let b = perform json setup tell t s in
      Grows-then (run_stored json setup tell actions) (run_stored-Grows actions) s
        (if known then b else s) (Grows-if known s b s (perform-Grows t s) (Grows-refl s))

  pub run_stored_actions-Grows :
      (s : MissionExecutor J) → Grows s (run_stored_actions json setup tell s)
  unfolding run_stored_actions
  run_stored_actions-Grows s = run_stored-Grows s.state.continuous_actions _

  pub complete-Grows :
      (k : Completion) (s : MissionExecutor J) → Grows s (complete json setup tell k s)
  unfolding complete resume_mission
  complete-Grows does_nothing s = Grows-refl s
  complete-Grows (runs_next_item h) s =
      Grows-if _ s _ s (run_next_mission_item-Grows s) (Grows-refl s)
  complete-Grows (resumes h previous) s =
      let a = run_stored_actions json setup tell s in
      let b = set_continuous_actions [] s in
      let x = run_current_mission_item json setup tell true a in
      let y = run_current_mission_item json setup tell false b in
      let same = same_index previous s.state.current_index in
      Grows-if (h == s.action_handler) s (if same then x else y) s
        (Grows-if same s x y
          (Grows-then (run_current_mission_item json setup tell true)
            (run_current_mission_item-Grows true) s a (run_stored_actions-Grows s))
          (run_current_mission_item-Grows false b))
        (Grows-refl s)
  complete-Grows (calls_user k) s = perform-Grows _ s

  pub index_reached-Grows :
      (k : IndexCallback) (i : ℤ) (s : MissionExecutor J)
      → Grows s (index_reached json setup tell k i s)
  unfolding index_reached
  index_reached-Grows (advances h j) i s =
      let a = set_current_mission_index json setup tell (inc i) s in
      let first = set_current_mission_index-Grows (inc i) s in
      let b = run_current_mission_item json setup tell false a in
      Grows-if (h == s.action_handler) s (if eq_int i j then b else a) s
        (Grows-if (eq_int i j) s b a
          (Grows-then (run_current_mission_item json setup tell false)
            (run_current_mission_item-Grows false) s a first)
          first)
        (Grows-refl s)
  index_reached-Grows (completes k j) i s = Grows-if _ s _ s (complete-Grows k s) (Grows-refl s)

  pub mode_completed-Grows :
      (k : Completion) (failure : Option ℕ) (r : Result) (s : MissionExecutor J)
      → Grows s (mode_completed json setup tell k failure r s)
  unfolding mode_completed
  mode_completed-Grows k none r s =
      let a = record s { active_mode = 0 } in
      let x = abort_with json setup tell mode_failure a in
      Grows-if (is_success r) s (complete json setup tell k s) (if is_deactivated r then s else x)
        (complete-Grows k s)
        (Grows-if (is_deactivated r) s s x (Grows-refl s) (abort_with-Outdates mode_failure a).1)
  mode_completed-Grows k (some f) r s =
      let a = record s { active_mode = 0 } in
      let x = perform json setup tell (failure_called f) a in
      Grows-if (is_success r) s (complete json setup tell k s) (if is_deactivated r then s else x)
        (complete-Grows k s)
        (Grows-if (is_deactivated r) s s x (Grows-refl s) (perform-Grows (failure_called f) a))
