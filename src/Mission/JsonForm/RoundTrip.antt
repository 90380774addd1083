-- ===== src/Mission/JsonForm/RoundTrip.antt =====
-- Objects, waypoints and navigation items that are written as JSON and read again.
use px4_ros.Base.{
  ◌≡◌, refl, sym, ap, ◌∙◌, inl, inr, Bool, true, false, List, [], ◌∷◌, Option, none, some, String,
  str_eq, str_eq_iff, if◌then◌else◌, ◌>>=◌, value_or, map_option, or_else, Bool-cases,
}
use px4_ros.Json.{JsonOps, JsonLaws, IsKeyed}
use px4_ros.Mission.{MissionFrame, global, mission_frame_str, Waypoint, NavigationItem}
use px4_ros.Mission.JsonForm.{
  at, assign, id_to_json, waypoint_to_json, navigation_to_json, read_value, frame_of,
  waypoint_from_json, navigation_from_json,
}

pub or_else-none : {A : Type 0} (o : Option A) → or_else o none ≡ o
or_else-none none = refl
or_else-none (some a) = refl

module _ {J : Type 0} (json : JsonOps J) (laws : JsonLaws json) where
  -- The value that is assigned to a key last.
  abbrev pub latest : String → List (String × Option J) → Option J → Option J
  latest key [] old = old
  latest key ((k, o) ∷ rest) old = latest key rest (if str_eq key k then or_else o old else old)

  lookup-insert_if :
      (key k : String) (value j : J)
      → IsKeyed json j
      → json.lookup key (json.insert k value j)
        ≡ (if str_eq key k then some value else json.lookup key j)
  lookup-insert_if key k value j o = elim (Bool-cases (str_eq key k)) [
    | inl e ↦ rw e (
        ap (λ k. json.lookup key (json.insert k value j)) (sym ((str_eq_iff key k).0 e))
        ∙ laws.lookup-insert key value j o)
    | inr e ↦ rw e (laws.lookup-insert_other key k value j o e)
  ]

  pub null-IsKeyed : IsKeyed json json.null
  null-IsKeyed = inl laws.is_null-null

  pub insert-IsKeyed :
      (key : String) (value j : J) → IsKeyed json j → IsKeyed json (json.insert key value j)
  insert-IsKeyed key value j o = inr (laws.is_object-insert key value j o)

  pub assign-IsKeyed :
      (values : List (String × Option J)) (j : J)
      → IsKeyed json j
      → IsKeyed json (assign json values j)
  unfolding assign
  assign-IsKeyed [] j o = o
  assign-IsKeyed ((k, some value) ∷ rest) j o =
      assign-IsKeyed rest (json.insert k value j) (insert-IsKeyed k value j o)
  assign-IsKeyed ((k, none) ∷ rest) j o = assign-IsKeyed rest j o

  lookup-assign :
      (key : String) (values : List (String × Option J)) (j : J)
      → IsKeyed json j
      → json.lookup key (assign json values j) ≡ latest key values (json.lookup key j)
  unfolding assign
  lookup-assign key [] j o = refl
  lookup-assign key ((k, some value) ∷ rest) j o =
      lookup-assign key rest (json.insert k value j) (insert-IsKeyed k value j o)
      ∙ ap (latest key rest) (lookup-insert_if key k value j o)
  lookup-assign key ((k, none) ∷ rest) j o =
      lookup-assign key rest j o ∙ ap (latest key rest) (same (str_eq key k))
    where
      same : (b : Bool) → json.lookup key j ≡ (if b then json.lookup key j else json.lookup key j)
      same true = refl
      same false = refl

  -- A new object.
  pub lookup-object :
      (key : String) (values : List (String × Option J))
      → json.lookup key (assign json values json.null) ≡ latest key values none
  lookup-object key values =
      lookup-assign key values json.null null-IsKeyed
      ∙ ap (latest key values) (laws.lookup-null key)

  -- Reading what was written.
  pub read_value-map_option :
      {A : Type 0} (get : J → Option A) (of : A → J) (o : Option A)
      → ((a : A) → o ≡ some a → get (of a) ≡ some a)
      → read_value json get (map_option of o) ≡ some o
  unfolding read_value
  read_value-map_option get of none h = refl
  read_value-map_option get of (some a) h = ap (λ p. p >>= λ x. some (some x)) (h a refl)

  -- One step of a chain.
  pub bind_eq :
      {A B : Type 0} (m : Option A) (f : A → Option B) (a : A) {r : Option B}
      → m ≡ some a
      → f a ≡ r
      → (m >>= f) ≡ r
  bind_eq m f a e q = ap (λ m. m >>= f) e ∙ q

  pub at_eq :
      {A : Type 0} (get : J → Option A) (j value : J) (key : String) (a : A)
      → json.lookup key j ≡ some value
      → get value ≡ some a
      → at json get j key ≡ some a
  unfolding at
  at_eq get j value key a e q = bind_eq (json.lookup key j) get value e q

  pub read_id :
      (id : String) (o : Option J)
      → o ≡ id_to_json json id
      → (i : Option String) × (read_value json json.to_string o ≡ some i) × (value_or i "" ≡ id)
  unfolding read_value id_to_json
  read_id id o h = elim (Bool-cases (str_eq id "")) [
    | inl e ↦ (
      none,
      ap (read_value json json.to_string)
          (h ∙ ap (λ (b : Bool). if b then none else some (json.of_string id)) e),
      sym ((str_eq_iff id "").0 e),
    )
    | inr e ↦ (
      some id,
      ap (read_value json json.to_string)
            (h ∙ ap (λ (b : Bool). if b then none else some (json.of_string id)) e)
          ∙ ap (λ p. p >>= λ x. some (some x)) (laws.to_string-of_string id),
      refl,
    )
  ]

  frame_of_str : (f : MissionFrame) → frame_of (mission_frame_str f) ≡ some f
  unfolding frame_of
  frame_of_str global = refl

  -- A waypoint, in an object that holds other keys too.
  waypoint_from_json-waypoint_to_json :
      (o : Waypoint) (j : J)
      → IsKeyed json j
      → waypoint_from_json json (waypoint_to_json json j o) ≡ some o
  unfolding waypoint_from_json waypoint_to_json
  waypoint_from_json-waypoint_to_json o j keyed =
      bind_eq _ _ (mission_frame_str o.frame)
        (at_eq json.to_string _ _ "frame" _ (lookup-assign "frame" _ j keyed)
          (laws.to_string-of_string _))
        (bind_eq _ _ o.frame (frame_of_str o.frame) (
          bind_eq _ _ o.coordinate.0
            (at_eq json.to_double _ _ "x" _ (lookup-assign "x" _ j keyed)
              (laws.to_double-of_double _))
            (bind_eq _ _ o.coordinate.1
              (at_eq json.to_double _ _ "y" _ (lookup-assign "y" _ j keyed)
                (laws.to_double-of_double _))
              (bind_eq _ _ o.coordinate.2
                (at_eq json.to_double _ _ "z" _ (lookup-assign "z" _ j keyed)
                  (laws.to_double-of_double _))
                refl))))

  abbrev waypoint_values : Waypoint → List (String × Option J)
  waypoint_values o =
      ("frame", some (json.of_string (mission_frame_str o.frame)))
      ∷ ("x", some (json.of_double o.coordinate.0))
      ∷ ("y", some (json.of_double o.coordinate.1))
      ∷ ("z", some (json.of_double o.coordinate.2))
      ∷ []

  abbrev navigation_values : NavigationItem → List (String × Option J)
  navigation_values o =
      ("id", id_to_json json o.id)
      ∷ ("type", some (json.of_string "navigation"))
      ∷ ("navigationType", some (json.of_string "waypoint"))
      ∷ []

  pub navigation_type :
      (o : NavigationItem)
      → json.lookup "type" (navigation_to_json json o) ≡ some (json.of_string "navigation")
  unfolding navigation_to_json waypoint_to_json
  navigation_type o =
      lookup-assign "type" (waypoint_values o.data_waypoint)
        (assign json (navigation_values o) json.null)
        (assign-IsKeyed (navigation_values o) json.null null-IsKeyed)
      ∙ ap (latest "type" (waypoint_values o.data_waypoint))
          (lookup-object "type" (navigation_values o))

  pub navigation_from_json-navigation_to_json :
      (o : NavigationItem) → navigation_from_json json (navigation_to_json json o) ≡ some o
  unfolding navigation_from_json navigation_to_json waypoint_to_json
  navigation_from_json-navigation_to_json o =
      let (i, read, e) = read_id o.id _ (value "id" ∙ or_else-none (id_to_json json o.id)) in
      bind_eq _ _ i read (
        bind_eq _ _ "waypoint"
          (at_eq json.to_string _ _ "navigationType" _ (value "navigationType")
            (laws.to_string-of_string _))
          (bind_eq _ _ o.data_waypoint
            (waypoint_from_json-waypoint_to_json o.data_waypoint _
              (assign-IsKeyed (navigation_values o) json.null null-IsKeyed))
            (ap (λ (id : String). some (item id)) e)))
    where
      item : String → NavigationItem
      item id = record { id = id; data_waypoint = o.data_waypoint }

      value :
          (key : String)
          → json.lookup key (navigation_to_json json o)
            ≡ latest key (waypoint_values o.data_waypoint) (latest key (navigation_values o) none)
      value key =
          lookup-assign key (waypoint_values o.data_waypoint)
            (assign json (navigation_values o) json.null)
            (assign-IsKeyed (navigation_values o) json.null null-IsKeyed)
          ∙ ap (latest key (waypoint_values o.data_waypoint))
              (lookup-object key (navigation_values o))
