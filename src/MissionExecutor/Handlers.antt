-- ===== src/MissionExecutor/Handlers.antt =====
-- Calls that are made with an action handler which is not valid any more do nothing, and a
-- deactivation and an abort leave no older handler valid.
use px4_ros.Base.{
  ℕ, ◌≤◌, ◌<◌, ◌≡◌, ap, ℤ, inc, eq_int, Bool, true, false, refl, ◌==◌, if◌then◌else◌, arith,
}
use px4_ros.Json.{JsonOps}
use px4_ros.MissionExecutor.{
  MissionExecutor, Setup, AbortReason, Completion, does_nothing, calls_user, runs_next_item,
  resumes, IndexCallback, advances, completes, Told,
}
use px4_ros.MissionExecutor.Running.{
  set_current_mission_index, abort_with, complete, index_reached, on_deactivate,
  run_next_mission_item, run_current_mission_item, resume_mission, mode_completed, is_success,
}
use px4_ros.MissionExecutor.Client.{
  Request, runs_mode, runs_mode_takeoff, runs_named_action, runs_custom_trajectory,
  sets_trajectory_options, clears_trajectory_options, sets_activity_info,
  sets_current_mission_index, stores_state, drops_state, aborts, calls_completed,
  calls_index_reached, calls_trajectory_failed, calls_mode_completed, if_valid, run_request,
}
use px4_ros.MissionExecutor.Aborting.{Tame, abort_with-Outdates}
use px4_ros.MissionExecutor.Deactivation.{on_deactivate-action_handler}

if_not {ℓ} : {A : Type ℓ} → (b : Bool) (x y : A) → b ≡ false → (if b then x else y) ≡ y
if_not b x y e = ap (λ c. if c then x else y) e

module _ {J : Type 0} (json : JsonOps J) (setup : Setup J)
    (tell : Told J → MissionExecutor J → MissionExecutor J) (tame : Tame tell) where
  -- The completion callbacks that hold a handler.
  abbrev pub HoldsHandler : ℕ → Completion → Type 0
  HoldsHandler h (runs_next_item h') = h' ≡ h
  HoldsHandler h (resumes h' i) = h' ≡ h
  HoldsHandler h does_nothing = ⊥
  HoldsHandler h (calls_user k) = ⊥

  -- The calls that are made with a handler and look at it. Setting the mission index does not look at
  -- it, and neither do the callbacks of trajectories and modes that fail.
  abbrev pub IsMadeWith : ℕ → Request J → Type 0
  IsMadeWith h (runs_mode h' mode k f) = h' ≡ h
  IsMadeWith h (runs_mode_takeoff h' altitude heading k f) = h' ≡ h
  IsMadeWith h (runs_named_action h' name arguments k) = h' ≡ h
  IsMadeWith h (runs_custom_trajectory h' m k stop) = h' ≡ h
  IsMadeWith h (sets_trajectory_options h' options) = h' ≡ h
  IsMadeWith h (clears_trajectory_options h') = h' ≡ h
  IsMadeWith h (sets_activity_info h' info) = h' ≡ h
  IsMadeWith h (stores_state h' a) = h' ≡ h
  IsMadeWith h (calls_completed k) = HoldsHandler h k
  IsMadeWith h (calls_index_reached (advances h' end_index) i) = h' ≡ h
  IsMadeWith h (calls_index_reached (completes k end_index) i) = HoldsHandler h k
  IsMadeWith h (calls_mode_completed k f r) = HoldsHandler h k × (is_success r ≡ true)
  IsMadeWith h (sets_current_mission_index i) = ⊥
  IsMadeWith h (drops_state id) = ⊥
  IsMadeWith h aborts = ⊥
  IsMadeWith h calls_trajectory_failed = ⊥

  -- None of these calls does anything in a state, nor in one with later handlers.
  abbrev pub Ignores : ℕ → MissionExecutor J → Type 0
  Ignores h s =
      (t : MissionExecutor J) (r : Request J)
      → s.action_handler ≤ t.action_handler
      → IsMadeWith h r
      → run_request json setup tell r t ≡ t

  differ : (h h' n : ℕ) → h' ≡ h → h < n → (h' == n) ≡ false
  differ h h' n e l = ground arith

  if_valid-older :
      (h h' : ℕ) (f : MissionExecutor J → MissionExecutor J) (t : MissionExecutor J)
      → h' ≡ h
      → h < t.action_handler
      → if_valid json setup tell h' f t ≡ t
  unfolding if_valid
  if_valid-older h h' f t e l =
      if_not (h' == t.action_handler) (f t) t (differ h h' t.action_handler e l)

  complete-older :
      (h : ℕ) (k : Completion) (t : MissionExecutor J)
      → HoldsHandler h k
      → h < t.action_handler
      → complete json setup tell k t ≡ t
  unfolding complete
  complete-older h does_nothing t m l = refl
  complete-older h (runs_next_item h') t m l =
      if_not (h' == t.action_handler) (run_next_mission_item json setup tell t) t
        (differ h h' t.action_handler m l)
  complete-older h (resumes h' i) t m l =
      if_not (h' == t.action_handler) (resume_mission json setup tell i t) t
        (differ h h' t.action_handler m l)
  complete-older h (calls_user k) t m l = absurd m

  index_reached-older :
      (h : ℕ) (k : IndexCallback) (i : ℤ) (t : MissionExecutor J)
      → IsMadeWith h (calls_index_reached k i)
      → h < t.action_handler
      → index_reached json setup tell k i t ≡ t
  unfolding index_reached
  index_reached-older h (advances h' end_index) i t m l =
      let a = set_current_mission_index json setup tell (inc i) t in
      if_not (h' == t.action_handler)
        (if eq_int i end_index then run_current_mission_item json setup tell false a else a) t
        (differ h h' t.action_handler m l)
  index_reached-older h (completes k end_index) i t m l =
      same (eq_int i end_index) (complete-older h k t m l)
    where
      same :
          (b : Bool)
          → complete json setup tell k t ≡ t
          → (if b then complete json setup tell k t else t) ≡ t
      same true e = e
      same false e = refl

  older-Ignores : (h : ℕ) (s : MissionExecutor J) → h < s.action_handler → Ignores h s
  unfolding run_request mode_completed
  older-Ignores h s older t (runs_mode h' mode k f) later m =
      if_valid-older h h' _ t m (omega arith)
  older-Ignores h s older t (runs_mode_takeoff h' altitude heading k f) later m =
      if_valid-older h h' _ t m (omega arith)
  older-Ignores h s older t (runs_named_action h' name arguments k) later m =
      if_valid-older h h' _ t m (omega arith)
  older-Ignores h s older t (runs_custom_trajectory h' mission k stop) later m =
      if_valid-older h h' _ t m (omega arith)
  older-Ignores h s older t (sets_trajectory_options h' options) later m =
      if_valid-older h h' _ t m (omega arith)
  older-Ignores h s older t (clears_trajectory_options h') later m =
      if_valid-older h h' _ t m (omega arith)
  older-Ignores h s older t (sets_activity_info h' info) later m =
      if_valid-older h h' _ t m (omega arith)
  older-Ignores h s older t (stores_state h' a) later m = if_valid-older h h' _ t m (omega arith)
  older-Ignores h s older t (calls_completed k) later m = complete-older h k t m (omega arith)
  older-Ignores h s older t (calls_index_reached k i) later m =
      index_reached-older h k i t m (omega arith)
  older-Ignores h s older t (calls_mode_completed k f r) later m =
      rw m.1 (complete-older h k t m.0 (omega arith))
  older-Ignores h s older t (sets_current_mission_index i) later m = absurd m
  older-Ignores h s older t (drops_state id) later m = absurd m
  older-Ignores h s older t aborts later m = absurd m
  older-Ignores h s older t calls_trajectory_failed later m = absurd m

  -- If user code changes neither the level of nested aborts nor the activity and never revives a
  -- handler: after the mission executor is deactivated, in that state and in every one with the
  -- same or a later handler, each of the following calls leaves the state as it is, if it is made
  -- with the handler that was valid before or with an older one: the calls of the handler that run
  -- a mode, a takeoff, an action or a trajectory, set or clear the trajectory options, set the
  -- activity or store a state, and the completions of mission items, resumptions, trajectories and
  -- modes that hold it. Setting the mission index through the handler is not among them, nor are
  -- the callbacks of trajectories and modes that fail.
  pub on_deactivate-Ignores :
      (landed : Bool) (h : ℕ) (s : MissionExecutor J)
      → h ≤ s.action_handler
      → (t : MissionExecutor J) (r : Request J)
      → (on_deactivate json setup tell landed s).action_handler ≤ t.action_handler
      → IsMadeWith h r
      → run_request json setup tell r t ≡ t
  on_deactivate-Ignores landed h s old =
      older-Ignores h (on_deactivate json setup tell landed s)
        (omega (arith, on_deactivate-action_handler json setup tell tame landed s))

  -- If user code changes neither the level of nested aborts nor the activity and never revives a
  -- handler: after an abort for any reason, in that state and in every one with the same or a
  -- later handler, each of the following calls leaves the state as it is, if it is made with the
  -- handler that was valid before or with an older one: the calls of the handler that run a mode,
  -- a takeoff, an action or a trajectory, set or clear the trajectory options, set the activity or
  -- store a state, and the completions of mission items, resumptions, trajectories and modes that
  -- hold it. Setting the mission index through the handler is not among them, nor are the
  -- callbacks of trajectories and modes that fail.
  pub abort_with-Ignores :
      (reason : AbortReason) (h : ℕ) (s : MissionExecutor J)
      → h ≤ s.action_handler
      → (t : MissionExecutor J) (r : Request J)
      → (abort_with json setup tell reason s).action_handler ≤ t.action_handler
      → IsMadeWith h r
      → run_request json setup tell r t ≡ t
  abort_with-Ignores reason h s old =
      let (later, rest) = abort_with-Outdates json setup tell tame reason s in
      older-Ignores h (abort_with json setup tell reason s) (omega arith)
