-- ===== src/Mission/JsonForm/Actions.antt =====
-- Actions that are written as JSON and read again.
use px4_ros.Base.{
  ◌≡◌, refl, sym, ap, ◌∙◌, inl, inr, ◌⊎◌, true, false, List, [], ◌∷◌, Option, none, some, String,
  str_eq, ◌>>=◌, value_or, or_else, Bool-cases,
}
use px4_ros.Json.{JsonOps, JsonLaws, IsKeyed}
use px4_ros.Mission.{ActionItem}
use px4_ros.Mission.JsonForm.{assign, id_to_json, action_to_json, read_value, action_from_json}
use px4_ros.Mission.JsonForm.RoundTrip.{
  assign-IsKeyed, at_eq, bind_eq, latest, lookup-object, null-IsKeyed, or_else-none, read_id,
}

module _ {J : Type 0} (json : JsonOps J) (laws : JsonLaws json) where
  -- An action whose arguments may hold its type and its id, but no other ones, as those that are
  -- read from a file do; it is not named like the other type of items.
  pub record IsConsistent (o : ActionItem J) : Type 0 where
    pub type_fits :
        (json.lookup "type" o.arguments ≡ none)
        ⊎ (json.lookup "type" o.arguments ≡ some (json.of_string o.name))
    pub id_fits :
        (json.lookup "id" o.arguments ≡ none)
        ⊎ (json.lookup "id" o.arguments ≡ some (json.of_string o.id))
    pub is_action : str_eq o.name "navigation" ≡ false
    pub arguments-IsKeyed : IsKeyed json o.arguments

  -- The same action: the arguments that are read hold its type and its id too.
  pub record SameAction (o o' : ActionItem J) : Type 0 where
    pub same_name : o'.name ≡ o.name
    pub same_id : o'.id ≡ o.id
    pub same_arguments :
        (key : String)
        → str_eq key "type" ≡ false
        → str_eq key "id" ≡ false
        → json.lookup key o'.arguments ≡ json.lookup key o.arguments

  abbrev action_values : ActionItem J → List (String × Option J)
  action_values o = ("type", some (json.of_string o.name)) ∷ ("id", id_to_json json o.id) ∷ []

  -- What is read under each key of the JSON value of an action.
  abbrev pub Holds : ActionItem J → J → Type 0
  Holds o j =
      (key : String)
      → json.lookup key j
        ≡ or_else (json.lookup key o.arguments) (latest json laws key (action_values o) none)

  abbrev object : ActionItem J → J
  object o = assign json (action_values o) json.null

  object-IsKeyed : (o : ActionItem J) → IsKeyed json (object o)
  object-IsKeyed o = assign-IsKeyed json laws (action_values o) json.null (null-IsKeyed json laws)

  object-Holds : (o : ActionItem J) → json.is_null o.arguments ≡ true → Holds o (object o)
  object-Holds o e key =
      lookup-object json laws key (action_values o)
      ∙ sym (
          ap (λ a. or_else a (latest json laws key (action_values o) none))
            (laws.lookup-null_value key o.arguments e))

  -- Arguments that are null or an object are written.
  action_to_json-Holds :
      (o : ActionItem J)
      → IsKeyed json o.arguments
      → (j : J) × (action_to_json json o ≡ some j) × Holds o j
  unfolding action_to_json
  action_to_json-Holds o keyed = elim (Bool-cases (json.is_null o.arguments)) [
    | inl e ↦ (object o, rw e refl, object-Holds o e)
    | inr e ↦
        let (r, written, value) =
          laws.update-object (object o) o.arguments (object-IsKeyed o) (not_null keyed e) in
        (
          r,
          rw e written,
          (λ key.
              value key
              ∙ ap (or_else (json.lookup key o.arguments))
                  (lookup-object json laws key (action_values o))),
        )
  ]
    where
      not_null :
          IsKeyed json o.arguments
          → json.is_null o.arguments ≡ false
          → json.is_object o.arguments ≡ true
      not_null (inl n) e = cc
      not_null (inr o) e = o

  -- Other arguments throw.
  pub action_to_json-throws :
      (o : ActionItem J)
      → json.is_null o.arguments ≡ false
      → json.is_object o.arguments ≡ false
      → action_to_json json o ≡ none
  unfolding action_to_json
  action_to_json-throws o e f =
      rw e (laws.update-throws (object o) o.arguments (object-IsKeyed o) f)

  action_id :
      (o : ActionItem J) (j : J)
      → IsConsistent o
      → Holds o j
      → (i : Option String) × (read_value json json.to_string (json.lookup "id" j) ≡ some i)
        × (value_or i "" ≡ o.id)
  unfolding read_value
  action_id o j c value = elim c.id_fits [
    | inl e ↦ read_id json laws o.id _ (
        value "id"
        ∙ ap (λ a. or_else a (or_else (id_to_json json o.id) none)) e
        ∙ or_else-none (id_to_json json o.id))
    | inr e ↦ (
      some o.id,
      ap (read_value json json.to_string)
            (value "id" ∙ ap (λ a. or_else a (or_else (id_to_json json o.id) none)) e)
          ∙ ap (λ p. p >>= λ x. some (some x)) (laws.to_string-of_string o.id),
      refl,
    )
  ]

  action_type :
      (o : ActionItem J) (j : J)
      → IsConsistent o
      → Holds o j
      → json.lookup "type" j ≡ some (json.of_string o.name)
  action_type o j c value = value "type" ∙ (elim c.type_fits [
    | inl e ↦ ap (λ a. or_else a (some (json.of_string o.name))) e
    | inr e ↦ ap (λ a. or_else a (some (json.of_string o.name))) e
  ])

  other_key :
      (key : String) (name : J) (id : Option J)
      → str_eq key "type" ≡ false
      → str_eq key "id" ≡ false
      → latest json laws key (("type", some name) ∷ ("id", id) ∷ []) none ≡ none
  other_key key name id p q = rw (p, q) refl

  pub action_from_json-action_to_json :
      (o : ActionItem J)
      → IsConsistent o
      → (j : J) × (o' : ActionItem J) × (action_to_json json o ≡ some j)
        × (json.lookup "type" j ≡ some (json.of_string o.name))
        × (action_from_json json j ≡ some o')
        × SameAction o o'
  unfolding action_from_json
  action_from_json-action_to_json o c =
      let (j, written, value) = action_to_json-Holds o c.arguments-IsKeyed in
      let (i, read, e) = action_id o j c value in
      (
        j,
        record { name = o.name; id = value_or i ""; arguments = j },
        written,
        action_type o j c value,
        bind_eq json laws _ _ o.name
            (at_eq json laws json.to_string _ _ "type" _ (action_type o j c value)
              (laws.to_string-of_string _))
            (bind_eq json laws _ _ i read refl),
        record {
          same_name = refl;
          same_id = e;
          same_arguments = λ key p q.
              value key
              ∙ ap (or_else (json.lookup key o.arguments))
                  (other_key key (json.of_string o.name) (id_to_json json o.id) p q)
              ∙ or_else-none (json.lookup key o.arguments);
        },
      )
