-- ===== src/WaypointExecutor/Arrival.antt =====
-- A vehicle that gets to one waypoint after the other ends the trajectory.
use mathlib.Core.Path.{subst, ap₂}
use px4_ros.Base.{
  ℕ, suc, ◌+◌, ◌≤◌, ◌<◌, ◌≡◌, refl, sym, ap, ◌∙◌, pos, Bool, true, List, [], ◌∷◌, none, some,
  if◌then◌else◌, length, get_elem?, arith, map, F32, lt→ltb,
}
use px4_ros.Mission.{MissionItem, NavigationItem, navigation, action}
use px4_ros.MissionExecutor.{TrajectoryConfig}
use px4_ros.WaypointExecutor.{
  Geodesy, Position, WaypointExecutor, Signal, silent, on_index_reached, run_trajectory,
  continue_next_item, goto_update, position_reached, radius_at, update_at, update_index,
  update_setpoint, run_updates,
}
use px4_ros.WaypointExecutor.Order.{
  IsAt, range, continue_next_item-Next, starts, get_elem?-some, le→false,
}

module _ {J : Type 0} (geo : Geodesy) where
  -- The position is within the radius of item `k`, if that is a waypoint.
  abbrev pub Arrives : TrajectoryConfig J → F32 → ℕ → Position → Type 0
  Arrives config radius k p =
      (item : NavigationItem)
      → get_elem? config.trajectory.items k ≡ some (navigation item)
      → position_reached geo p item.data_waypoint.coordinate (radius_at geo (pos k) config radius)
        ≡ true

  -- The positions arrive at one item after the other, from item `k` on.
  abbrev pub Visits : TrajectoryConfig J → F32 → ℕ → List Position → Type 0
  Visits config radius k [] = Unit
  Visits config radius k (p ∷ ps) = Arrives config radius k p × Visits config radius (suc k) ps

  -- The update reports the item and goes on, with the same radius.
  record Reports (config : TrajectoryConfig J) (radius : F32) (k last : ℕ)
      (r : Signal × WaypointExecutor J) : Type 0 where
    pub signal : r.0 ≡ on_index_reached (pos k)
    pub state : IsAt geo config (suc k) last r.1
    pub same_radius : r.1.acceptance_radius ≡ radius

  continue_next_item-Reports :
      (config : TrajectoryConfig J) (radius : F32) (k last : ℕ) (w : WaypointExecutor J)
      → k ≤ last
      → IsAt geo config k last w
      → w.acceptance_radius ≡ radius
      → Reports config radius k last (continue_next_item (pos k) w)
  unfolding continue_next_item
  continue_next_item-Reports config radius k last w h a e = record {
    signal = refl;
    state = (continue_next_item-Next geo config k last w h a.runs a.ends a.inside).2;
    same_radius = e;
  }

  update_at-Reports :
      (config : TrajectoryConfig J) (radius : F32) (k last : ℕ) (p : Position)
      (item : MissionItem J) (w : WaypointExecutor J)
      → k ≤ last
      → IsAt geo config k last w
      → w.acceptance_radius ≡ radius
      → get_elem? config.trajectory.items k ≡ some item
      → Arrives config radius k p
      → Reports config radius k last (update_at geo (some p) (pos k) (some item) w)
  unfolding update_at
  update_at-Reports config radius k last p (action item) w h a e i v =
      continue_next_item-Reports config radius k last w h a e
  update_at-Reports config radius k last p (navigation item) w h a e i v =
      subst
        (λ (b : Bool).
          Reports config radius k last
            (if b then continue_next_item (pos k) flown else (silent, flown)))
        (sym (
          ap
            (λ (c : TrajectoryConfig J).
              position_reached geo p item.data_waypoint.coordinate
                (radius_at geo (pos k) c w.acceptance_radius))
            a.runs
          ∙ ap
              (λ (r : F32).
                position_reached geo p item.data_waypoint.coordinate
                  (radius_at geo (pos k) config r))
              e
          ∙ v item i))
        (continue_next_item-Reports config radius k last flown h
          (record { runs = a.runs; ends = a.ends; inside = a.inside; here = a.here }) e)
    where
      flown : WaypointExecutor J
      flown = record w {
        setpoints =
            goto_update geo p item.data_waypoint.coordinate w.current_trajectory.options
            ∷ w.setpoints;
      }

  update_setpoint-Reports :
      (config : TrajectoryConfig J) (radius : F32) (k last : ℕ) (p : Position)
      (w : WaypointExecutor J)
      → k ≤ last
      → IsAt geo config k last w
      → w.acceptance_radius ≡ radius
      → Arrives config radius k p
      → Reports config radius k last (update_setpoint geo (some p) w)
  unfolding update_setpoint update_index
  update_setpoint-Reports config radius k last p w h a e v =
      let (item, i) = get_elem?-some config.trajectory.items k (omega (arith, a.inside)) in
      subst (λ r. Reports config radius k last r)
        (sym (
          ap (λ o. update_index geo (some p) o w)
            (a.here ∙ ap (λ (b : Bool). if b then none else some (pos k)) (le→false h))
          ∙ ap (λ o. update_at geo (some p) (pos k) o w)
              (ap (λ (c : TrajectoryConfig J). get_elem? c.trajectory.items k) a.runs ∙ i)))
        (update_at-Reports config radius k last p item w h a e i v)

  run_updates-Visits :
      (ps : List Position) (config : TrajectoryConfig J) (radius : F32) (k last : ℕ)
      (w : WaypointExecutor J)
      → k + length ps ≡ suc last
      → IsAt geo config k last w
      → w.acceptance_radius ≡ radius
      → Visits config radius k ps
      → let (signals, w') = run_updates geo (map some ps) w in
        (signals ≡ map on_index_reached (range k (length ps))) × (w'.current_index ≡ none)
  unfolding run_updates
  run_updates-Visits [] config radius k last w h a e v = (
    refl,
    a.here ∙ ap (λ (b : Bool). if b then none else some (pos k)) (lt→ltb last k (omega arith)),
  )
  run_updates-Visits (p ∷ ps) config radius k last w h a e v =
      let r = update_setpoint-Reports config radius k last p w (omega arith) a e v.0 in
      let (signals, done) =
        run_updates-Visits ps config radius (suc k) last (update_setpoint geo (some p) w).1
          (omega arith) r.state r.same_radius v.1 in
      (ap₂ ◌∷◌ r.signal signals, done)

  -- If the positions of the updates arrive at one item of the trajectory after the other, each
  -- within the radius of its item, then every update reports its item, and after the last one the
  -- executor is idle.
  pub run_updates_arrive :
      (ps : List Position) (config : TrajectoryConfig J) (first last : ℕ) (w : WaypointExecutor J)
      → config.start_index ≡ pos first
      → config.end_index ≡ pos last
      → first ≤ last
      → last < length config.trajectory.items
      → first + length ps ≡ suc last
      → Visits config w.acceptance_radius first ps
      → let (signals, w') = run_updates geo (map some ps) (run_trajectory config w) in
        (signals ≡ map on_index_reached (range first (length ps))) × (w'.current_index ≡ none)
  unfolding run_trajectory
  run_updates_arrive ps config first last w s e h i n v =
      run_updates-Visits ps config w.acceptance_radius first last (run_trajectory config w) n
        (starts geo config first last w s e h i) refl v
