-- ===== src/WaypointExecutor.antt =====
-- px4_ros2_cpp/src/mission/trajectory/multicopter/waypoint_trajectory_executor.cpp: flying to the
-- waypoints of a trajectory, one after the other. A callback is the last thing that an update does:
-- it is the signal that the update returns. The geodesic functions and the position are arguments.
pub mod Order
pub mod Arrival
use px4_ros.Base.{
  ℕ, ℤ, inc, eq_int, gt_int, to_size, Bool, true, false, not, ◌&&◌, List, [], ◌∷◌, Option, none,
  some, if◌then◌else◌, F32, F64, lt32, get_elem?, length,
}
use px4_ros.Mission.{
  Mission, MissionItem, navigation, action, MissionFrame, global, NavigationItemType, waypoint,
  TrajectoryOptions,
}
use px4_ros.MissionExecutor.{TrajectoryConfig}

abbrev pub Position : Type 0
Position = F64 × F64 × F64

-- `px4_ros2/utils/geodesic.hpp`, and the halving of a float.
pub record Geodesy : Type 0 where
  pub horizontal_distance_to_global_position : Position → Position → F32
  pub heading_to_global_position : Position → Position → F32
  pub distance_to_global_position : Position → Position → F32
  pub halve : F32 → F32

-- One update of the goto setpoint.
pub record GotoUpdate : Type 0 where
  pub target_position : Position
  pub heading : Option F32
  pub horizontal_velocity : Option F32
  pub vertical_velocity : Option F32
  pub max_heading_rate : Option F32

-- The setpoints are the latest first.
pub record WaypointExecutor (J : Type 0) : Type 0 where
  pub current_trajectory : TrajectoryConfig J
  pub acceptance_radius : F32
  pub current_index : Option ℤ
  pub setpoints : List GotoUpdate

-- What an update tells the owner of the trajectory. The last one is no call: the code reads an
-- item out of the bounds of the trajectory, which has no defined behaviour.
pub data Signal : Type 0 where
  silent : Signal
  on_index_reached : ℤ → Signal
  on_failure : Signal
  reads_out_of_bounds : Signal

-- `navigationItemTypeSupported` and `frameSupported`
abbrev pub navigation_item_type_supported : NavigationItemType → Bool
navigation_item_type_supported waypoint = true

abbrev pub frame_supported : MissionFrame → Bool
frame_supported global = true

-- `0.1f`
abbrev min_distance : F32
min_distance = 0x3dcccccd

module _ (geo : Geodesy) where
  -- `positionReached`
  unfoldable pub position_reached : Position → Position → F32 → Bool
  position_reached position target radius =
      lt32 (geo.distance_to_global_position position target) radius

  unfoldable pub goto_update : Position → Position → TrajectoryOptions → GotoUpdate
  goto_update position target options = record {
    target_position = target;
    heading =
        if lt32 min_distance (geo.horizontal_distance_to_global_position position target)
        then some (geo.heading_to_global_position position target)
        else none;
    horizontal_velocity = options.horizontal_velocity;
    vertical_velocity = options.vertical_velocity;
    max_heading_rate = options.max_heading_rate;
  }

module _ {J : Type 0} where
  -- `runTrajectory`
  unfoldable pub run_trajectory : TrajectoryConfig J → WaypointExecutor J → WaypointExecutor J
  run_trajectory config w = record w {
    current_trajectory = config;
    current_index = some config.start_index;
  }

  -- `continueNextItem`, at the current index.
  unfoldable pub continue_next_item : ℤ → WaypointExecutor J → Signal × WaypointExecutor J
  continue_next_item index w = (
    on_index_reached index,
    record w {
      current_index =
          if gt_int (inc index) w.current_trajectory.end_index then none else some (inc index);
    },
  )

  module _ (geo : Geodesy) where
    -- The radius is halved where the vehicle stops at the last item.
    unfoldable pub radius_at : ℤ → TrajectoryConfig J → F32 → F32
    radius_at index config radius =
        if eq_int index config.end_index && config.stop_at_last then geo.halve radius else radius

    -- The update at an item of the trajectory. There is a position if it is valid.
    unfoldable pub update_at :
        Option Position
        → ℤ
        → Option (MissionItem J)
        → WaypointExecutor J
        → Signal × WaypointExecutor J
    update_at position index none w = (reads_out_of_bounds, w)
    update_at position index (some (action item)) w = continue_next_item index w
    update_at none index (some (navigation item)) w = (on_failure, w)
    update_at (some position) index (some (navigation item)) w =
        let target = item.data_waypoint.coordinate in
        let w' = record w {
          setpoints = goto_update geo position target w.current_trajectory.options ∷ w.setpoints;
        } in
        if position_reached geo position target
          (radius_at index w.current_trajectory w.acceptance_radius)
        then continue_next_item index w'
        else (silent, w')

    -- `updateSetpoint`, on the current index: the items are indexed by a `size_t`.
    unfoldable pub update_index :
        Option Position → Option ℤ → WaypointExecutor J → Signal × WaypointExecutor J
    update_index position none w = (silent, w)
    update_index position (some index) w =
        update_at position index (get_elem? w.current_trajectory.trajectory.items (to_size index)) w

    unfoldable pub update_setpoint :
        Option Position → WaypointExecutor J → Signal × WaypointExecutor J
    update_setpoint position w = update_index position w.current_index w

    -- Updates one after the other, with the signals in order.
    unfoldable pub run_updates :
        List (Option Position) → WaypointExecutor J → List Signal × WaypointExecutor J
    run_updates [] w = ([], w)
    run_updates (p ∷ ps) w =
        let (signal, w') = update_setpoint p w in
        let (signals, w'') = run_updates ps w' in (signal ∷ signals, w'')
