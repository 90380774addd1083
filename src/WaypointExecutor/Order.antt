-- ===== src/WaypointExecutor/Order.antt =====
-- The waypoints are reported in order, each once, and no item outside of the trajectory is read.
use px4_ros.Base.{
  ℕ, zero, suc, ◌+◌, ◌-◌, ◌≤◌, ◌<◌, ◌≡◌, ◌≢◌, refl, sym, ap, ◌∙◌, inl, inr, ℤ, pos, Bool, false,
  List, [], ◌∷◌, Option, none, some, if◌then◌else◌, if_both, gt_int, length, get_elem?, arith, All,
  Bool-cases, ltb,
}
use mathlib.Core.Path.{subst}
use px4_ros.Mission.{MissionItem, navigation, action}
use px4_ros.MissionExecutor.{TrajectoryConfig}
use px4_ros.WaypointExecutor.{
  Geodesy, Position, WaypointExecutor, Signal, silent, on_index_reached, on_failure,
  reads_out_of_bounds, run_trajectory, continue_next_item, goto_update, position_reached, radius_at,
  update_at, update_index, update_setpoint, run_updates,
}

-- The indices that were reported.
abbrev pub reached : List Signal → List ℤ
reached [] = []
reached (on_index_reached i ∷ signals) = i ∷ reached signals
reached (silent ∷ signals) = reached signals
reached (on_failure ∷ signals) = reached signals
reached (reads_out_of_bounds ∷ signals) = reached signals

-- The abstract executor: a counter, that steps or waits.
abbrev pub range : ℕ → ℕ → List ℤ
range first zero = []
range first (suc n) = pos first ∷ range (suc first) n

-- The index after `n` items, up to and with the last.
abbrev pub index_from : ℕ → ℕ → Option ℤ
index_from first last = if ltb last first then none else some (pos first)

pub get_elem?-some {ℓ} :
    {A : Type ℓ} (xs : List A) (i : ℕ) → i < length xs → (a : A) × (get_elem? xs i ≡ some a)
get_elem?-some [] i h = absurd (omega arith)
get_elem?-some (x ∷ xs) zero h = (x, refl)
get_elem?-some (x ∷ xs) (suc i) h = get_elem?-some xs i (omega arith)

false→le : {m n : ℕ} → ltb n m ≡ false → m ≤ n
false→le h = ground arith

pub le→false : {m n : ℕ} → m ≤ n → ltb n m ≡ false
le→false h = ground arith

module _ {J : Type 0} (geo : Geodesy) where
  -- The state at item `first` of a trajectory that ends at `last`.
  pub record IsAt (config : TrajectoryConfig J) (first last : ℕ) (w : WaypointExecutor J)
      : Type 0 where
    pub runs : w.current_trajectory ≡ config
    pub ends : config.end_index ≡ pos last
    pub inside : last < length config.trajectory.items
    pub here : w.current_index ≡ index_from first last

  pub starts :
      (config : TrajectoryConfig J) (first last : ℕ) (w : WaypointExecutor J)
      → config.start_index ≡ pos first
      → config.end_index ≡ pos last
      → first ≤ last
      → last < length config.trajectory.items
      → IsAt config first last (run_trajectory config w)
  unfolding run_trajectory
  starts config first last w s e h i = record {
    runs = refl;
    ends = e;
    inside = i;
    here = ap some s ∙ sym (ap (λ (b : Bool). if b then none else some (pos first)) (le→false h));
  }

  -- One step of the counter: it waits at its item, or reports it and goes on.
  abbrev Next : TrajectoryConfig J → ℕ → ℕ → Signal × WaypointExecutor J → Type 0
  Next config first last (silent, w) = IsAt config first last w
  Next config first last (on_failure, w) = IsAt config first last w
  Next config first last (on_index_reached i, w) =
      (i ≡ pos first) × (first ≤ last) × IsAt config (suc first) last w
  Next config first last (reads_out_of_bounds, w) = ⊥

  pub continue_next_item-Next :
      (config : TrajectoryConfig J) (first last : ℕ) (w : WaypointExecutor J)
      → first ≤ last
      → w.current_trajectory ≡ config
      → config.end_index ≡ pos last
      → last < length config.trajectory.items
      → Next config first last (continue_next_item (pos first) w)
  unfolding continue_next_item
  continue_next_item-Next config first last w h e f i = (
    refl,
    h,
    record {
      runs = e;
      ends = f;
      inside = i;
      here =
          ap (λ (i : ℤ). if gt_int (pos (suc first)) i then none else some (pos (suc first)))
            (ap (λ (c : TrajectoryConfig J). c.end_index) e ∙ f);
    },
  )

  update_at-Next :
      (p : Option Position) (config : TrajectoryConfig J) (first last : ℕ) (item : MissionItem J)
      (w : WaypointExecutor J)
      → first ≤ last
      → IsAt config first last w
      → Next config first last (update_at geo p (pos first) (some item) w)
  unfolding update_at
  update_at-Next p config first last (action item) w h a =
      continue_next_item-Next config first last w h a.runs a.ends a.inside
  update_at-Next none config first last (navigation item) w h a = a
  update_at-Next (some p) config first last (navigation item) w h a =
      if_both (Next config first last)
        (position_reached geo p item.data_waypoint.coordinate
          (radius_at geo (pos first) w.current_trajectory w.acceptance_radius))
        (continue_next_item (pos first) flown) (silent, flown)
        (continue_next_item-Next config first last flown h a.runs a.ends a.inside)
        (record { runs = a.runs; ends = a.ends; inside = a.inside; here = a.here })
    where
      flown : WaypointExecutor J
      flown = record w {
        setpoints =
            goto_update geo p item.data_waypoint.coordinate w.current_trajectory.options
            ∷ w.setpoints;
      }

  update_setpoint-Next :
      (p : Option Position) (config : TrajectoryConfig J) (first last : ℕ) (w : WaypointExecutor J)
      → IsAt config first last w
      → Next config first last (update_setpoint geo p w)
  unfolding update_setpoint update_index
  update_setpoint-Next p config first last w a = elim (Bool-cases (ltb last first)) [
    | inl done ↦
        subst (λ r. Next config first last r)
          (sym (
            ap (λ o. update_index geo p o w)
              (a.here ∙ ap (λ (b : Bool). if b then none else some (pos first)) done)))
          a
    | inr more ↦
        let (item, e) =
          get_elem?-some config.trajectory.items first (omega (arith, a.inside, false→le more)) in
        subst (λ r. Next config first last r)
          (sym (
            ap (λ o. update_index geo p o w)
              (a.here ∙ ap (λ (b : Bool). if b then none else some (pos first)) more)
            ∙ ap (λ o. update_at geo p (pos first) o w)
                (ap (λ (c : TrajectoryConfig J). get_elem? c.trajectory.items first) a.runs ∙ e)))
          (update_at-Next p config first last item w (false→le more) a)
  ]

  -- What a run gives, counted from item `first`.
  record Runs (config : TrajectoryConfig J) (first last : ℕ) (r : List Signal × WaypointExecutor J)
      : Type 0 where
    pub count : ℕ
    pub bounded : count ≤ suc last - first
    pub in_order : reached r.0 ≡ range first count
    pub in_bounds : All (λ signal. signal ≢ reads_out_of_bounds) r.0
    pub state : IsAt config (first + count) last r.1

  cons-Runs :
      (config : TrajectoryConfig J) (first last : ℕ) (r : Signal × WaypointExecutor J)
      (rest : WaypointExecutor J → List Signal × WaypointExecutor J)
      → Next config first last r
      → ((k : ℕ) → IsAt config k last r.1 → Runs config k last (rest r.1))
      → Runs config first last (r.0 ∷ (rest r.1).0, (rest r.1).1)
  cons-Runs config first last (silent, w) rest a h =
      let q = h first a in
      record {
        count = q.count;
        bounded = q.bounded;
        in_order = q.in_order;
        in_bounds = ((λ e. cc), q.in_bounds);
        state = q.state;
      }
  cons-Runs config first last (on_failure, w) rest a h =
      let q = h first a in
      record {
        count = q.count;
        bounded = q.bounded;
        in_order = q.in_order;
        in_bounds = ((λ e. cc), q.in_bounds);
        state = q.state;
      }
  cons-Runs config first last (on_index_reached i, w) rest (e, le, a) h =
      let q = h (suc first) a in
      record {
        count = suc q.count;
        bounded = omega (arith, le, q.bounded);
        in_order = ap (λ (i : ℤ). i ∷ reached (rest w).0) e ∙ ap (◌∷◌ (pos first)) q.in_order;
        in_bounds = ((λ e. cc), q.in_bounds);
        state = subst (λ n. IsAt config n last (rest w).1) (omega arith) q.state;
      }
  cons-Runs config first last (reads_out_of_bounds, w) rest a h = absurd a

  run_updates-Runs :
      (ps : List (Option Position)) (config : TrajectoryConfig J) (first last : ℕ)
      (w : WaypointExecutor J)
      → IsAt config first last w
      → Runs config first last (run_updates geo ps w)
  unfolding run_updates
  run_updates-Runs [] config first last w a = record {
    count = 0;
    bounded = omega arith;
    in_order = refl;
    in_bounds = tt;
    state = subst (λ n. IsAt config n last w) (omega arith) a;
  }
  run_updates-Runs (p ∷ ps) config first last w a =
      cons-Runs config first last (update_setpoint geo p w) (run_updates geo ps)
        (update_setpoint-Next p config first last w a)
        (λ k b. run_updates-Runs ps config k last (update_setpoint geo p w).1 b)

  -- Whatever valid or missing positions the updates of a trajectory from item `first` to item
  -- `last` find: the executor acts as a counter. The indices that it reports are first, first + 1,
  -- and so on, each once and none beyond the last; its index is the next one, or none after the
  -- last; and no item outside of the trajectory is read.
  pub run_updates_in_order :
      (ps : List (Option Position)) (config : TrajectoryConfig J) (first last : ℕ)
      (w : WaypointExecutor J)
      → config.start_index ≡ pos first
      → config.end_index ≡ pos last
      → first ≤ last
      → last < length config.trajectory.items
      → let (signals, w') = run_updates geo ps (run_trajectory config w) in
        (n : ℕ) × (n ≤ suc last - first)
        × (reached signals ≡ range first n)
        × (w'.current_index ≡ index_from (first + n) last)
        × All (λ signal. signal ≢ reads_out_of_bounds) signals
  run_updates_in_order ps config first last w s e h i =
      let q =
        run_updates-Runs ps config first last (run_trajectory config w)
          (starts config first last w s e h i) in
      (q.count, q.bounded, q.in_order, q.state.here, q.in_bounds)
