-- ===== src/Mission/JsonForm/MissionRoundTrip.antt =====
-- A whole mission that is written as JSON and read again.
use px4_ros.Base.{
  ◌≡◌, refl, sym, ap, ◌∙◌, inl, inr, pos, Bool, true, false, List, [], ◌∷◌, Option, none, some,
  String, if◌then◌else◌, ◌>>=◌, map_option, or_else, F32, is_nan32, Bool-cases,
}
use px4_ros.Json.{JsonOps, JsonLaws, IsKeyed}
use px4_ros.Mission.{
  NavigationItem, ActionItem, MissionItem, navigation, action, TrajectoryOptions, Mission,
}
use px4_ros.Mission.JsonForm.{
  assign, item_to_json, read_value, item_of_type, item_from_json, items_from_json, items_to_json,
  navigation_to_json, options_to_json, options_from_json, defaults_to_json, defaults_from_json,
  mission_to_json, read_defaults, content_from_json, mission_from_json, navigation_from_json,
  action_from_json,
}
use px4_ros.Mission.JsonForm.RoundTrip.{
  null-IsKeyed, assign-IsKeyed, latest, lookup-object, read_value-map_option, bind_eq, at_eq,
  or_else-none, navigation_type, navigation_from_json-navigation_to_json,
}
use px4_ros.Mission.JsonForm.Actions.{IsConsistent, SameAction, action_from_json-action_to_json}

module _ {J : Type 0} (json : JsonOps J) (laws : JsonLaws json) where
  abbrev pub IsConsistentItem : MissionItem J → Type 0
  IsConsistentItem (navigation o) = Unit
  IsConsistentItem (action o) = IsConsistent json laws o

  -- The same items, in the same order.
  abbrev pub SameItems : List (MissionItem J) → List (MissionItem J) → Type 0
  SameItems [] [] = Unit
  SameItems (navigation o ∷ xs) (navigation o' ∷ ys) = (o' ≡ o) × SameItems xs ys
  SameItems (action o ∷ xs) (action o' ∷ ys) = SameAction json laws o o' × SameItems xs ys
  SameItems _ _ = ⊥

  abbrev pub AreConsistent : List (MissionItem J) → Type 0
  AreConsistent [] = Unit
  AreConsistent (item ∷ items) = IsConsistentItem item × AreConsistent items

  navigation_item :
      (o : NavigationItem) → item_from_json json (navigation_to_json json o) ≡ some (navigation o)
  unfolding item_from_json item_of_type
  navigation_item o =
      bind_eq json laws _ _ "navigation"
        (at_eq json laws json.to_string _ _ "type" _ (navigation_type json laws o)
          (laws.to_string-of_string _))
        (bind_eq json laws _ _ o (navigation_from_json-navigation_to_json json laws o) refl)

  action_item :
      (o : ActionItem J)
      → IsConsistent json laws o
      → (j : J) × (o' : ActionItem J) × (item_to_json json (action o) ≡ some j)
        × (item_from_json json j ≡ some (action o'))
        × SameAction json laws o o'
  unfolding item_from_json item_to_json item_of_type
  action_item o c =
      let (j, o', written, type, e, same) = action_from_json-action_to_json json laws o c in
      (
        j,
        o',
        written,
        bind_eq json laws _ _ o.name
            (at_eq json laws json.to_string _ _ "type" _ type (laws.to_string-of_string _))
            (ap
                (λ (b : Bool).
                  if b
                  then (navigation_from_json json j >>= λ q. some (navigation q))
                  else (action_from_json json j >>= λ q. some (action q)))
                c.is_action
              ∙ bind_eq json laws _ _ o' e refl),
        same,
      )

  items_round_trip :
      (items : List (MissionItem J))
      → AreConsistent items
      → (js : List J) × (items' : List (MissionItem J)) × (items_to_json json items ≡ some js)
        × (items_from_json json js ≡ some items')
        × SameItems items items'
  unfolding items_from_json items_to_json item_to_json
  items_round_trip [] c = ([], [], refl, refl, tt)
  items_round_trip (navigation o ∷ items) c =
      let (js, items', written, e, same) = items_round_trip items c.1 in
      let j = navigation_to_json json o in
      (
        j ∷ js,
        navigation o ∷ items',
        bind_eq json laws _ _ js written refl,
        bind_eq json laws _ _ (navigation o) (navigation_item o)
            (bind_eq json laws _ _ items' e refl),
        (refl, same),
      )
  items_round_trip (action o ∷ items) c =
      let (j, o', f, g, same_action) = action_item o c.0 in
      let (js, items', written, e, same) = items_round_trip items c.1 in
      (
        j ∷ js,
        action o' ∷ items',
        bind_eq json laws _ _ j f (bind_eq json laws _ _ js written refl),
        bind_eq json laws _ _ (action o') g (bind_eq json laws _ _ items' e refl),
        (same_action, same),
      )

  module _ (deg_to_rad rad_to_deg : F32 → F32) where
    -- All numbers of the options are numbers.
    pub record AreNumbers (o : TrajectoryOptions) : Type 0 where
      pub horizontal : (x : F32) → o.horizontal_velocity ≡ some x → is_nan32 x ≡ false
      pub vertical : (x : F32) → o.vertical_velocity ≡ some x → is_nan32 x ≡ false
      pub rate : (x : F32) → map_option rad_to_deg o.max_heading_rate ≡ some x → is_nan32 x ≡ false

    -- The heading rate is converted to degrees and back.
    abbrev pub converted : TrajectoryOptions → TrajectoryOptions
    converted o = record o {
      max_heading_rate = map_option deg_to_rad (map_option rad_to_deg o.max_heading_rate);
    }

    map_option_comp :
        (o : Option F32)
        → map_option (λ x. json.of_float (rad_to_deg x)) o
          ≡ map_option json.of_float (map_option rad_to_deg o)
    map_option_comp none = refl
    map_option_comp (some x) = refl

    abbrev pub options_values : TrajectoryOptions → List (String × Option J)
    options_values o =
        ("horizontalVelocity", map_option json.of_float o.horizontal_velocity)
        ∷ ("verticalVelocity", map_option json.of_float o.vertical_velocity)
        ∷ ("maxHeadingRate", map_option (λ x. json.of_float (rad_to_deg x)) o.max_heading_rate)
        ∷ []

    -- One option, from its value.
    read_option :
        (o : Option F32) (value : Option J)
        → value ≡ or_else (map_option json.of_float o) none
        → ((x : F32) → o ≡ some x → is_nan32 x ≡ false)
        → read_value json json.to_float value ≡ some o
    read_option o value e n =
        ap (read_value json json.to_float) (e ∙ or_else-none (map_option json.of_float o))
        ∙ read_value-map_option json laws json.to_float json.of_float o
            (λ x q. laws.to_float-of_float x (n x q))

    -- Whatever object has the keys of the options.
    pub read_options :
        (o : TrajectoryOptions) (j : J)
        → AreNumbers o
        → ((key : String) → json.lookup key j ≡ latest json laws key (options_values o) none)
        → options_from_json json deg_to_rad rad_to_deg j ≡ some (converted o)
    unfolding options_from_json
    read_options o j n value =
        bind_eq json laws _ _ o.horizontal_velocity
          (read_option o.horizontal_velocity _ (value "horizontalVelocity") n.horizontal)
          (bind_eq json laws _ _ o.vertical_velocity
            (read_option o.vertical_velocity _ (value "verticalVelocity") n.vertical)
            (bind_eq json laws _ _ (map_option rad_to_deg o.max_heading_rate)
              (read_option (map_option rad_to_deg o.max_heading_rate) _
                (value "maxHeadingRate"
                  ∙ ap (λ v. or_else v none) (map_option_comp o.max_heading_rate))
                n.rate)
              refl))

    -- Options are null, where there are none, or an object.
    written_options :
        (o : TrajectoryOptions)
        → (j : J) × (defaults_to_json json deg_to_rad rad_to_deg (record { trajectory_options = o })
            ≡ some j)
          × ((key : String) → json.lookup key j ≡ latest json laws key (options_values o) none)
    unfolding defaults_to_json options_to_json
    written_options o = elim (Bool-cases (json.is_null trajectory)) [
      | inl e ↦ (
        json.null,
        rw e refl,
        (λ key. laws.lookup-null key ∙ sym (laws.lookup-null_value key trajectory e) ∙ value key),
      )
      | inr e ↦
          let (r, written, read) =
            laws.update-object json.null trajectory (null-IsKeyed json laws) (
              not_null
                (assign-IsKeyed json laws (options_values o) json.null (null-IsKeyed json laws))
                e) in
          (
            r,
            rw e written,
            (λ key.
                read key
                ∙ ap (or_else (json.lookup key trajectory)) (laws.lookup-null key)
                ∙ or_else-none (json.lookup key trajectory)
                ∙ value key),
          )
    ]
      where
        trajectory : J
        trajectory = assign json (options_values o) json.null

        value :
            (key : String)
            → json.lookup key trajectory ≡ latest json laws key (options_values o) none
        value key = lookup-object json laws key (options_values o)

        not_null :
            IsKeyed json trajectory
            → json.is_null trajectory ≡ false
            → json.is_object trajectory ≡ true
        not_null (inl n) e = cc
        not_null (inr p) e = p

    abbrev mission_object : J → List J → J
    mission_object defaults items =
        assign json
          (("version", some (json.of_int (pos 1)))
            ∷ (
              "mission",
              some (
                  assign json
                    (("defaults", some defaults) ∷ ("items", some (json.of_list items)) ∷ [])
                    json.null),
            )
            ∷ [])
          json.null

    -- Let the JSON library work as documented. If the velocities of a mission and its heading rate
    -- in degrees are numbers, and its actions are not named like a navigation item and have
    -- arguments that are null or an object and do not contradict their type and id, then the
    -- mission is written as JSON without an exception, and a mission is read from that. It has the
    -- same velocities, the heading rate converted to degrees and back, and the same items in
    -- order: equal waypoints, and actions of the same name and id with the same arguments but for
    -- their type and id.
    pub mission_from_json-mission_to_json :
        (m : Mission J)
        → AreNumbers m.defaults.trajectory_options
        → AreConsistent m.items
        → (j : J) × (m' : Mission J) × (mission_to_json json deg_to_rad rad_to_deg m ≡ some j)
          × (mission_from_json json deg_to_rad rad_to_deg j ≡ some m')
          × (m'.defaults.trajectory_options ≡ converted m.defaults.trajectory_options)
          × SameItems m.items m'.items
    unfolding mission_from_json content_from_json mission_to_json read_defaults defaults_from_json
    mission_from_json-mission_to_json m n c =
        let (js, items', items_written, e, same) = items_round_trip m.items c in
        let (d, written, value) = written_options m.defaults.trajectory_options in
        (
          mission_object d js,
          record {
            defaults = record { trajectory_options = converted m.defaults.trajectory_options };
            items = items';
          },
          bind_eq json laws _ _ d written (bind_eq json laws _ _ js items_written refl),
          bind_eq json laws _ _ (pos 1)
              (at_eq json laws json.to_int _ _ "version" _ (lookup-object json laws "version" _)
                (laws.to_int-of_int _))
              (bind_eq json laws _ _ _ (lookup-object json laws "mission" _) (
                bind_eq json laws _ _
                  (record { trajectory_options = converted m.defaults.trajectory_options })
                  (ap (read_defaults json deg_to_rad rad_to_deg)
                      (lookup-object json laws "defaults" _)
                    ∙ bind_eq json laws _ _ (converted m.defaults.trajectory_options)
                        (read_options m.defaults.trajectory_options d n value) refl)
                  (bind_eq json laws _ _ _
                    (at_eq json laws json.to_list _ _ "items" _ (lookup-object json laws "items" _)
                      (laws.to_list-of_list _))
                    (bind_eq json laws _ _ items' e refl)))),
          refl,
          same,
        )
