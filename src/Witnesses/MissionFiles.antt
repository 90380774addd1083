-- ===== src/Witnesses/MissionFiles.antt =====
-- A mission with a waypoint and an action, as JSON.
use px4_ros.Base.{
  ◌≡◌, refl, ap, sym, inl, inr, pos, true, [], ◌∷◌, Option, none, some, F32, is_nan32,
}
use px4_ros.Mission.{global, ActionItem, navigation, action, TrajectoryOptions, Mission}
use px4_ros.Mission.JsonForm.{resuming, contains, at, mission_to_json, mission_from_json}
use px4_ros.Mission.JsonForm.Actions.{IsConsistent}
use px4_ros.Mission.JsonForm.MissionRoundTrip.{
  AreNumbers, SameItems, converted, mission_from_json-mission_to_json,
}
use px4_ros.Witnesses.JsonValues.{
  JsonValue, null, text, number, truth, with_key, lookup, json_values, json_values-JsonLaws,
}

abbrev landing : ActionItem JsonValue
landing = record {
  name = "land";
  id = "at home";
  arguments = with_key "type" (text "land") (with_key "descentRate" (number (pos 2)) null);
}

-- Ten metres per second, and a heading rate.
abbrev pub options : TrajectoryOptions
options = record {
  horizontal_velocity = some 0x41200000;
  vertical_velocity = none;
  max_heading_rate = some 0x3f800000;
}

abbrev home_flight : Mission JsonValue
home_flight = record {
  defaults = record { trajectory_options = options };
  items =
      navigation
        (record { id = ""; data_waypoint = record { coordinate = (10, 20, 30); frame = global } })
      ∷ action landing
      ∷ [];
}

landing-IsConsistent : IsConsistent json_values json_values-JsonLaws landing
unfolding lookup
landing-IsConsistent = record {
  type_fits = inr refl;
  id_fits = inl refl;
  is_action = refl;
  arguments-IsKeyed = inr refl;
}

number_of : Option F32 → F32
number_of (some x) = x
number_of none = 0

pub options-AreNumbers : AreNumbers json_values json_values-JsonLaws (λ x. x) (λ x. x) options
unfolding is_nan32 number_of
options-AreNumbers = record {
  horizontal = λ x e. ap (λ o. is_nan32 (number_of o)) (sym e);
  vertical = λ x e. cc;
  rate = λ x e. ap (λ o. is_nan32 (number_of o)) (sym e);
}

mission_from_json-mission_to_json_example :
    (j : JsonValue) × (m' : Mission JsonValue) × (mission_to_json json_values
        (λ x. x)
        (λ x. x)
        home_flight
      ≡ some j)
    × (mission_from_json json_values (λ x. x) (λ x. x) j ≡ some m')
    × (m'.defaults.trajectory_options
        ≡ converted json_values json_values-JsonLaws (λ x. x) (λ x. x) options)
    × SameItems json_values json_values-JsonLaws home_flight.items m'.items
mission_from_json-mission_to_json_example =
    mission_from_json-mission_to_json json_values json_values-JsonLaws (λ x. x) (λ x. x) home_flight
      options-AreNumbers (tt, (landing-IsConsistent, tt))

resuming_landing :
    resuming json_values (with_key "internal:resuming" (truth true) landing.arguments) ≡ some true
unfolding resuming lookup contains at
resuming_landing = refl
