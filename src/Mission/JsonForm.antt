-- ===== src/Mission/JsonForm.antt =====
-- px4_ros2_cpp/src/mission/mission.cpp: missions as JSON values of the vendored library. What throws
-- gives nothing. The conversions between degrees and radians are arguments, and so are the sums of
-- floats behind them.
pub mod RoundTrip
pub mod Actions
pub mod MissionRoundTrip
use px4_ros.Base.{
  ℕ, ℤ, pos, eq_int, Bool, true, false, not, ◌&&◌, List, [], ◌∷◌, Option, none, some, String,
  str_eq, if◌then◌else◌, ◌>>=◌, has_value, value_or, map_option, map, F32, F64, length, ltb,
}
use px4_ros.Json.{JsonOps}
use px4_ros.Mission.{
  MissionFrame, global, mission_frame_str, Waypoint, NavigationItem, ActionItem, MissionItem,
  navigation, action, TrajectoryOptions, MissionDefaults, Mission,
}

-- The frame of a name; there is one frame.
unfoldable pub frame_of : String → Option MissionFrame
frame_of frame = if str_eq frame "global" then some global else none

module _ {J : Type 0} (json : JsonOps J) where
  -- `ActionArguments::contains`, `at` and `resuming`; `at` throws if there is no such key.
  unfoldable pub contains : J → String → Bool
  contains arguments key = has_value (json.lookup key arguments)

  unfoldable pub at {ℓ} : {A : Type ℓ} → (J → Option A) → J → String → Option A
  at get arguments key = json.lookup key arguments >>= get

  unfoldable pub resuming : J → Option Bool
  resuming arguments =
      if contains arguments "internal:resuming"
      then at json.to_bool arguments "internal:resuming"
      else some false

  -- `j[key] = value` for each of the values that are there.
  unfoldable pub assign : List (String × Option J) → J → J
  assign [] j = j
  assign ((key, none) ∷ rest) j = assign rest j
  assign ((key, some value) ∷ rest) j = assign rest (json.insert key value j)

  -- An `id` that is not empty.
  unfoldable pub id_to_json : String → Option J
  id_to_json id = if str_eq id "" then none else some (json.of_string id)

  -- `to_json` of a waypoint and of a navigation item, into one object.
  unfoldable pub waypoint_to_json : J → Waypoint → J
  waypoint_to_json j o =
      let (x, y, z) = o.coordinate in
      assign
        (("frame", some (json.of_string (mission_frame_str o.frame)))
          ∷ ("x", some (json.of_double x))
          ∷ ("y", some (json.of_double y))
          ∷ ("z", some (json.of_double z))
          ∷ [])
        j

  unfoldable pub navigation_to_json : NavigationItem → J
  navigation_to_json o =
      waypoint_to_json
        (assign
          (("id", id_to_json o.id)
            ∷ ("type", some (json.of_string "navigation"))
            ∷ ("navigationType", some (json.of_string "waypoint"))
            ∷ [])
          json.null)
        o.data_waypoint

  -- The arguments of an action throw if they are neither null nor an object.
  unfoldable pub action_to_json : ActionItem J → Option J
  action_to_json o =
      let j =
        assign (("type", some (json.of_string o.name)) ∷ ("id", id_to_json o.id) ∷ []) json.null in
      if json.is_null o.arguments then some j else json.update j o.arguments

  unfoldable pub item_to_json : MissionItem J → Option J
  item_to_json (navigation o) = some (navigation_to_json o)
  item_to_json (action o) = action_to_json o

  unfoldable pub items_to_json : List (MissionItem J) → Option (List J)
  items_to_json [] = some []
  items_to_json (item ∷ items) = do j ← item_to_json item; js ← items_to_json items; some (j ∷ js)

  -- The optional value of a key, which throws if it is of another type.
  unfoldable pub read_value {ℓ} : {A : Type ℓ} → (J → Option A) → Option J → Option (Option A)
  read_value get none = some none
  read_value get (some j) = get j >>= λ a. some (some a)

  -- `from_json` of a waypoint.
  unfoldable pub waypoint_from_json : J → Option Waypoint
  waypoint_from_json j = do
    frame_name ← at json.to_string j "frame"
    frame ← frame_of frame_name
    x ← at json.to_double j "x"
    y ← at json.to_double j "y"
    z ← at json.to_double j "z"
    some (record { coordinate = (x, y, z); frame = frame })

  unfoldable pub navigation_from_json : J → Option NavigationItem
  navigation_from_json j = do
    id ← read_value json.to_string (json.lookup "id" j)
    navigation_type ← at json.to_string j "navigationType"
    w ← if str_eq navigation_type "waypoint" then waypoint_from_json j else none
    some (record { id = value_or id ""; data_waypoint = w })

  unfoldable pub action_from_json : J → Option (ActionItem J)
  action_from_json j = do
    name ← at json.to_string j "type"
    id ← read_value json.to_string (json.lookup "id" j)
    some (record { name = name; id = value_or id ""; arguments = j })

  -- The item of a type: all but one are actions.
  unfoldable pub item_of_type : String → J → Option (MissionItem J)
  item_of_type type j =
      if str_eq type "navigation"
      then (navigation_from_json j >>= λ o. some (navigation o))
      else (action_from_json j >>= λ o. some (action o))

  unfoldable pub item_from_json : J → Option (MissionItem J)
  item_from_json j = at json.to_string j "type" >>= λ type. item_of_type type j

  unfoldable pub items_from_json : List J → Option (List (MissionItem J))
  items_from_json [] = some []
  items_from_json (j ∷ js) = do
    item ← item_from_json j
    items ← items_from_json js
    some (item ∷ items)

  module _ (deg_to_rad rad_to_deg : F32 → F32) where
    unfoldable pub options_to_json : TrajectoryOptions → J
    options_to_json o =
        assign
          (("horizontalVelocity", map_option json.of_float o.horizontal_velocity)
            ∷ ("verticalVelocity", map_option json.of_float o.vertical_velocity)
            ∷ ("maxHeadingRate", map_option (λ x. json.of_float (rad_to_deg x)) o.max_heading_rate)
            ∷ [])
          json.null

    unfoldable pub options_from_json : J → Option TrajectoryOptions
    options_from_json j = do
      horizontal ← read_value json.to_float (json.lookup "horizontalVelocity" j)
      vertical ← read_value json.to_float (json.lookup "verticalVelocity" j)
      rate ← read_value json.to_float (json.lookup "maxHeadingRate" j)
      some (record {
        horizontal_velocity = horizontal;
        vertical_velocity = vertical;
        max_heading_rate = map_option deg_to_rad rate;
      })

    unfoldable pub defaults_to_json : MissionDefaults → Option J
    defaults_to_json o =
        let trajectory = options_to_json o.trajectory_options in
        if json.is_null trajectory then some json.null else json.update json.null trajectory

    unfoldable pub defaults_from_json : J → Option MissionDefaults
    defaults_from_json j = options_from_json j >>= λ o. some (record { trajectory_options = o })

    -- `to_json` of a mission.
    unfoldable pub mission_to_json : Mission J → Option J
    mission_to_json o = do
      defaults ← defaults_to_json o.defaults
      items ← items_to_json o.items
      some (
          assign
            (("version", some (json.of_int (pos 1)))
              ∷ (
                "mission",
                some (
                    assign (("defaults", some defaults) ∷ ("items", some (json.of_list items)) ∷ [])
                      json.null),
              )
              ∷ [])
            json.null)

    -- The defaults of a mission that has none are empty.
    unfoldable pub read_defaults : Option J → Option MissionDefaults
    read_defaults none = some (record {
      trajectory_options = record {
        horizontal_velocity = none;
        vertical_velocity = none;
        max_heading_rate = none;
      };
    })
    read_defaults (some j) = defaults_from_json j

    -- `from_json` of a mission of version 1; `items` holds an array.
    unfoldable pub content_from_json : J → Option (Mission J)
    content_from_json mission = do
      defaults ← read_defaults (json.lookup "defaults" mission)
      array ← at json.to_list mission "items"
      items ← items_from_json array
      some (record { defaults = defaults; items = items })

    unfoldable pub mission_from_json : J → Option (Mission J)
    mission_from_json j = at json.to_int j "version" >>= λ version.
        if eq_int version (pos 1) then json.lookup "mission" j >>= content_from_json else none

    -- `MissionFileMonitor::fileUpdated`: the mission that is passed on, if the file could be parsed.
    unfoldable pub file_updated : Option J → Option (Mission J)
    file_updated parsed = parsed >>= mission_from_json
