-- ===== src/Witnesses/Flight.antt =====
-- Transitions of a VTOL and flights along waypoints at concrete inputs.
use px4_ros.Base.{
  ℕ, ◌+◌, ◌-◌, ◌≤◌, ◌≡◌, ◌≢◌, refl, ap, sym, arith, pos, true, false, List, [], ◌∷◌, Option, none,
  some, lt32, map, All,
}
use px4_ros.Mission.{MissionItem, navigation, action, global, no_options}
use px4_ros.MissionExecutor.{TrajectoryConfig, advances}
use px4_ros.Vtol.{FloatOps, default_config, new, pitch_setpoint}
use px4_ros.Vtol.Runs.{
  Event, gets_status, gets_position, to_multicopter_called, acceleration_setpoint_called, run,
}
use px4_ros.Vtol.Spacing.{IsSpaced, run-IsSpaced}
use px4_ros.Vtol.Integrator.{IsWithin, pitch_setpoint_bounds}
use px4_ros.WaypointExecutor.{
  Geodesy, Position, WaypointExecutor, on_index_reached, reads_out_of_bounds, run_trajectory,
  run_updates, position_reached, radius_at,
}
use px4_ros.WaypointExecutor.Order.{reached, range, index_from, run_updates_in_order}
use px4_ros.WaypointExecutor.Arrival.{Visits, run_updates_arrive}
use px4_ros.Witnesses.Data.{px4}

-- Test operations on the patterns: the error is always 0.5, and each update takes one second.
abbrev float_ops : FloatOps
float_ops = record {
  add = λ x y. 0x3f000000;
  sub = λ x y. 0x3f000000;
  mul = λ x y. x;
  neg = λ x. 0x3f000000;
  cos = λ x. x;
  sin = λ x. x;
  tan = λ x. x;
  seconds_between = λ now last. 0x3f800000;
}

-- In fixed wing: three calls, of which the second comes too early, and then a transition.
abbrev transition_events : List Event
transition_events =
    gets_status 1_000_000_000 4
    ∷ to_multicopter_called 1_100_000_000
    ∷ to_multicopter_called 1_200_000_000
    ∷ to_multicopter_called 1_300_000_000
    ∷ gets_status 1_400_000_000 2
    ∷ gets_position 0 0 0
    ∷ acceleration_setpoint_called none 1_500_000_000
    ∷ []

run-IsSpaced_example :
    IsSpaced 900_000_000
      (run px4 float_ops default_config transition_events (new 900_000_000)).published
run-IsSpaced_example = run-IsSpaced px4 float_ops default_config transition_events 900_000_000

limit_not_negative : lt32 0x3e99999a 0 ≡ false
unfolding lt32
limit_not_negative = refl

pitch_setpoint_bounds_example :
    IsWithin 0x3e99999a
      (pitch_setpoint float_ops default_config none 1_600_000_000
        (run px4 float_ops default_config transition_events (new 900_000_000))).0
pitch_setpoint_bounds_example =
    pitch_setpoint_bounds px4 float_ops default_config transition_events 900_000_000 1_600_000_000
      none limit_not_negative

-- Distances in units of the least positive float: the difference of the first coordinates.
abbrev geodesy : Geodesy
geodesy = record {
  horizontal_distance_to_global_position = λ p q. 0;
  heading_to_global_position = λ p q. 0;
  distance_to_global_position = λ p q. (p.0 - q.0) + (q.0 - p.0);
  halve = λ x. 2;
}

abbrev waypoint_at : ℕ → MissionItem ℕ
waypoint_at x =
    navigation
      (record { id = ""; data_waypoint = record { coordinate = (x, 0, 0); frame = global } })

abbrev route : TrajectoryConfig ℕ
route = record {
  trajectory = record {
    defaults = record { trajectory_options = no_options };
    items = waypoint_at 10 ∷ waypoint_at 20 ∷ waypoint_at 30 ∷ [];
  };
  options = no_options;
  start_index = pos 1;
  end_index = pos 2;
  stop_at_last = true;
  on_index_reached = advances 0 (pos 2);
}

abbrev idle : WaypointExecutor ℕ
idle = record {
  current_trajectory = route;
  acceptance_radius = 4;
  current_index = none;
  setpoints = [];
}

abbrev flight : List (Option Position)
flight = none ∷ some (15, 0, 0) ∷ some (19, 0, 0) ∷ []

run_updates_in_order_example :
    let (signals, w') = run_updates geodesy flight (run_trajectory route idle) in
    (n : ℕ) × (n ≤ 2)
    × (reached signals ≡ range 1 n)
    × (w'.current_index ≡ index_from (1 + n) 2)
    × All (λ signal. signal ≢ reads_out_of_bounds) signals
run_updates_in_order_example =
    run_updates_in_order geodesy flight route 1 2 idle refl refl (omega arith) (omega arith)

abbrev stops : List Position
stops = (19, 0, 0) ∷ (30, 0, 0) ∷ []

abbrev coordinate_of : Option (MissionItem ℕ) → Position
coordinate_of (some (navigation item)) = item.data_waypoint.coordinate
coordinate_of (some (action item)) = (0, 0, 0)
coordinate_of none = (0, 0, 0)

stops-Visits : Visits geodesy route 4 1 stops
unfolding position_reached radius_at lt32
stops-Visits = (
  λ item e. ap (λ o. position_reached geodesy (19, 0, 0) (coordinate_of o) 4) (sym e),
  (λ item e. ap (λ o. position_reached geodesy (30, 0, 0) (coordinate_of o) 2) (sym e), tt),
)

run_updates_arrive_example :
    let (signals, w') = run_updates geodesy (map some stops) (run_trajectory route idle) in
    (signals ≡ map on_index_reached (range 1 2)) × (w'.current_index ≡ none)
run_updates_arrive_example =
    run_updates_arrive geodesy stops route 1 2 idle refl refl (omega arith) (omega arith) refl
      stops-Visits
