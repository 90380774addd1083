-- ===== src/MissionExecutor/Persistence.antt =====
-- The state that is saved is the state that is loaded, but for the ids of the continuous actions.
use px4_ros.Base.{
  ℕ, suc, ◌≡◌, refl, ap, ◌∙◌, ℤ, pos, Bool, true, false, not, ◌&&◌, List, [], ◌∷◌, map, Option,
  none, some, String, str_eq, str_eq_refl, if◌then◌else◌, ◌>>=◌,
}
use px4_ros.Json.{JsonOps, JsonLaws, IsKeyed}
use px4_ros.Mission.JsonForm.RoundTrip.{null-IsKeyed, insert-IsKeyed}
use px4_ros.MissionExecutor.{ActionState, PersistentState, MissionExecutor, Setup}
use px4_ros.MissionExecutor.Stored.{
  to_json, from_json, encode_action, encode_index, decode_action, decode_actions, decode_index,
  decode_all_actions, save_persistent_state, try_load_persistent_state, has_valid_index, loadable,
  clear_persistent_state,
}

-- The actions numbered from an id, in the same order.
abbrev pub number_from {ℓ} : {A : Type ℓ} → ℕ → List (ℕ × A) → List (ℕ × A)
number_from id [] = []
number_from id ((j, x) ∷ rest) = (id, x) ∷ number_from (suc id) rest

abbrev pub renumbered : {J : Type 0} → PersistentState J → PersistentState J
renumbered p = record p { continuous_actions = number_from 0 p.continuous_actions }

module _ {J : Type 0} (json : JsonOps J) (laws : JsonLaws json) where
  decode_action-encode_action :
      (id : ℕ) (a : ActionState J) → decode_action json (encode_action json (id, a)) ≡ some a
  decode_action-encode_action id a =
      rw
        (
          laws.lookup-insert_other "name" "arguments" a.arguments
              (json.insert "name" (json.of_string a.name) json.null) named refl,
          laws.lookup-insert "name" (json.of_string a.name) json.null (null-IsKeyed json laws),
          laws.to_string-of_string a.name,
          laws.lookup-insert "arguments" a.arguments
              (json.insert "name" (json.of_string a.name) json.null) named,
        )
        refl
    where
      named : IsKeyed json (json.insert "name" (json.of_string a.name) json.null)
      named =
          insert-IsKeyed json laws "name" (json.of_string a.name) json.null (null-IsKeyed json laws)

  decode_actions-encode_action :
      (id : ℕ) (actions : List (ℕ × ActionState J))
      → decode_actions json id (map (encode_action json) actions) ≡ some (number_from id actions)
  unfolding decode_actions
  decode_actions-encode_action id [] = refl
  decode_actions-encode_action id ((j, a) ∷ rest) =
      rw (decode_action-encode_action j a, decode_actions-encode_action (suc id) rest) refl

  lookup_other :
      (key other : String) (value j : J) {o : Option J}
      → IsKeyed json j
      → str_eq key other ≡ false
      → json.lookup key j ≡ o
      → json.lookup key (json.insert other value j) ≡ o
  lookup_other key other value j keyed e p = laws.lookup-insert_other key other value j keyed e ∙ p

  module _ (p : PersistentState J) where
    abbrev version : J
    version = json.insert "version" (json.of_int (pos 1)) json.null

    abbrev with_index : J
    with_index = encode_index json p.current_index version

    abbrev with_actions : J
    with_actions =
        json.insert "actions" (json.of_list (map (encode_action json) p.continuous_actions))
          with_index

    version-IsKeyed : IsKeyed json version
    version-IsKeyed =
        insert-IsKeyed json laws "version" (json.of_int (pos 1)) json.null (null-IsKeyed json laws)

    with_index-IsKeyed : IsKeyed json with_index
    with_index-IsKeyed = go p.current_index
      where
        go : (o : Option ℤ) → IsKeyed json (encode_index json o version)
        go none = version-IsKeyed
        go (some i) =
            insert-IsKeyed json laws "currentIndex" (json.of_int i) version version-IsKeyed

    with_actions-IsKeyed : IsKeyed json with_actions
    with_actions-IsKeyed = insert-IsKeyed json laws "actions" _ with_index with_index-IsKeyed

    lookup_version : json.lookup "version" (to_json json p) ≡ some (json.of_int (pos 1))
    unfolding to_json
    lookup_version =
        lookup_other "version" "checksum" _ with_actions with_actions-IsKeyed refl (
          lookup_other "version" "actions" _ with_index with_index-IsKeyed refl
            (go p.current_index))
      where
        go :
            (o : Option ℤ)
            → json.lookup "version" (encode_index json o version) ≡ some (json.of_int (pos 1))
        go none =
            laws.lookup-insert "version" (json.of_int (pos 1)) json.null (null-IsKeyed json laws)
        go (some i) =
            lookup_other "version" "currentIndex" (json.of_int i) version version-IsKeyed refl (
              laws.lookup-insert "version" (json.of_int (pos 1)) json.null (null-IsKeyed json laws))

    lookup_index :
        decode_index json (json.lookup "currentIndex" (to_json json p)) ≡ some p.current_index
    unfolding to_json
    lookup_index =
        ap (decode_index json) (
          lookup_other "currentIndex" "checksum" _ with_actions with_actions-IsKeyed refl
            (lookup_other "currentIndex" "actions" _ with_index with_index-IsKeyed refl refl))
        ∙ go p.current_index
      where
        go :
            (o : Option ℤ)
            → decode_index json (json.lookup "currentIndex" (encode_index json o version)) ≡ some o
        go none = ap (decode_index json) (
            lookup_other "currentIndex" "version" _ json.null (null-IsKeyed json laws) refl
              (laws.lookup-null "currentIndex"))
        go (some i) =
            ap (decode_index json)
              (laws.lookup-insert "currentIndex" (json.of_int i) version version-IsKeyed)
            ∙ ap (λ o. o >>= λ i. some (some i)) (laws.to_int-of_int i)

    lookup_actions :
        decode_all_actions json (json.lookup "actions" (to_json json p))
        ≡ some (number_from 0 p.continuous_actions)
    unfolding to_json
    lookup_actions =
        ap (decode_all_actions json) (
          lookup_other "actions" "checksum" _ with_actions with_actions-IsKeyed refl
            (laws.lookup-insert "actions" _ with_index with_index-IsKeyed))
        ∙ ap (λ o. o >>= decode_actions json 0) (laws.to_list-of_list _)
        ∙ decode_actions-encode_action 0 p.continuous_actions

    lookup_checksum :
        json.lookup "checksum" (to_json json p) ≡ some (json.of_string p.mission_checksum)
    unfolding to_json
    lookup_checksum =
        laws.lookup-insert "checksum" (json.of_string p.mission_checksum) with_actions
          with_actions-IsKeyed

    -- If the JSON library works as documented, the persistent state that is read from the JSON of a
    -- persistent state is that state, with its continuous actions numbered again from 0.
    from_json-to_json : from_json json (to_json json p) ≡ some (renumbered p)
    unfolding from_json
    from_json-to_json =
        rw
          (
            lookup_version,
            laws.to_int-of_int (pos 1),
            lookup_index,
            lookup_actions,
            lookup_checksum,
            laws.to_string-of_string p.mission_checksum,
          )
          refl

  module _ (setup : Setup J) (s : MissionExecutor J) (has : setup.has_persistence_file ≡ true)
      (writes : (j : J) (f : Option J) → setup.write_file j f ≡ some j)
      (same : s.state.mission_checksum ≡ setup.checksum s.mission)
      (valid : has_valid_index json setup s.mission s.state.current_index ≡ true) where
    abbrev saved : MissionExecutor J
    saved = record s { file = some (to_json json s.state) }

    save_persistent_state-saved : save_persistent_state json setup s ≡ saved
    unfolding save_persistent_state
    save_persistent_state-saved =
        let x = clear_persistent_state json setup s in
        let y = record s { file = setup.write_file (to_json json s.state) s.file } in
        let bad = not (has_valid_index json setup s.mission s.state.current_index) in
        ap (λ b. if not b then s else (if bad then x else y)) has
        ∙ ap (λ b. if not b then x else y) valid
        ∙ ap (λ f. record s { file = f }) (writes (to_json json s.state) s.file)

    loadable-renumbered : loadable json setup (renumbered s.state) saved ≡ true
    loadable-renumbered =
        ap (λ b. b && has_valid_index json setup s.mission s.state.current_index)
          (ap (λ c. str_eq c (setup.checksum s.mission)) same
            ∙ str_eq_refl (setup.checksum s.mission))
        ∙ valid

    load_result : Option (PersistentState J) → Bool × MissionExecutor J
    load_result none = (false, saved)
    load_result (some p) =
        if loadable json setup p saved then (true, record saved { state = p }) else (false, saved)

    try_load_persistent_state-saved :
        try_load_persistent_state json setup saved
        ≡ (true, record saved { state = renumbered s.state })
    unfolding try_load_persistent_state load_result
    try_load_persistent_state-saved =
        ap
          (λ b.
            if not b then (false, saved) else load_result (from_json json (to_json json s.state)))
          has
        ∙ ap load_result (from_json-to_json s.state)
        ∙ ap
            (λ b. if b then (true, record saved { state = renumbered s.state }) else (false, saved))
            loadable-renumbered

    -- Let the JSON library work as documented, and let writing the file work. If the executor has
    -- a file, and its mission has the checksum that its state records and an item at its index,
    -- then loading after saving succeeds, and changes nothing but the file and the ids of the
    -- continuous actions, which are numbered again from 0.
    pub try_load_persistent_state-save_persistent_state :
        try_load_persistent_state json setup (save_persistent_state json setup s)
        ≡ (true, record s { file = some (to_json json s.state); state = renumbered s.state })
    try_load_persistent_state-save_persistent_state =
        ap (try_load_persistent_state json setup) save_persistent_state-saved
        ∙ try_load_persistent_state-saved
