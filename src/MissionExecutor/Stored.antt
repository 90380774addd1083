-- ===== src/MissionExecutor/Stored.antt =====
-- px4_ros2_cpp/src/mission/mission_executor.cpp: the state that outlives an activation: the index
-- and the continuous actions, in memory and in a file.
use px4_ros.Base.{
  ◌≡◌, refl, ap, ◌⊎◌, inl, inr, arith, ℕ, suc, ◌+◌, ℤ, pos, eq_int, Bool, true, false, not, ◌&&◌,
  List, [], ◌∷◌, map, Option, none, some, str_eq, if◌then◌else◌, ltb, ◌==◌, ◌>>=◌,
}
use px4_ros.Json.{JsonOps}
use px4_ros.Mission.{Mission, index_valid}
use px4_ros.MissionExecutor.{
  ActionState, PersistentState, MissionExecutor, Setup, set_current_index, set_continuous_actions,
}

-- `std::map`: `map[id] = value` and `erase`.
unfoldable pub assign {ℓ} : {A : Type ℓ} → ℕ → A → List (ℕ × A) → List (ℕ × A)
assign id value [] = (id, value) ∷ []
assign id value ((j, x) ∷ rest) =
    let tail = assign id value rest in
    if id == j
    then (id, value) ∷ rest
    else (if ltb id j then (id, value) ∷ (j, x) ∷ rest else (j, x) ∷ tail)

unfoldable pub erase {ℓ} : {A : Type ℓ} → ℕ → List (ℕ × A) → List (ℕ × A)
erase id [] = []
erase id ((j, x) ∷ rest) = let tail = erase id rest in if id == j then rest else (j, x) ∷ tail

and_right : (x y : Bool) → (x && y) ≡ true → y ≡ true
and_right x y h = ground arith

module _ {J : Type 0} where
  -- `resetMissionState`
  unfoldable pub reset_mission_state : MissionExecutor J → MissionExecutor J
  reset_mission_state s = set_continuous_actions [] (set_current_index none s)

  -- `addContinousAction`: the new state, and the id that its keeper holds.
  unfoldable pub add_continuous_action : ActionState J → MissionExecutor J → ℕ × MissionExecutor J
  add_continuous_action action s = (
    s.next_continuous_action_id,
    record s {
      next_continuous_action_id = s.next_continuous_action_id + 1;
      state = record s.state {
        continuous_actions = assign s.next_continuous_action_id action s.state.continuous_actions;
      };
    },
  )

  -- `removeContinousAction`
  unfoldable pub remove_continuous_action : ℕ → MissionExecutor J → MissionExecutor J
  remove_continuous_action id s =
      if not s.is_active then s else set_continuous_actions (erase id s.state.continuous_actions) s

  module _ (json : JsonOps J) where
    abbrev pub encode_action : ℕ × ActionState J → J
    encode_action (id, action) =
        json.insert "arguments" action.arguments
          (json.insert "name" (json.of_string action.name) json.null)

    abbrev pub encode_index : Option ℤ → J → J
    encode_index none j = j
    encode_index (some i) j = json.insert "currentIndex" (json.of_int i) j

    -- `PersistentState::toJson`
    unfoldable pub to_json : PersistentState J → J
    to_json p = json.insert "checksum" (json.of_string p.mission_checksum) (
        json.insert "actions" (json.of_list (map encode_action p.continuous_actions))
          (encode_index p.current_index (json.insert "version" (json.of_int (pos 1)) json.null)))

    abbrev pub decode_action : J → Option (ActionState J)
    decode_action j = do
      field ← json.lookup "name" j
      name ← json.to_string field
      arguments ← json.lookup "arguments" j
      some (record { name = name; arguments = arguments })

    -- The loop over the actions: they are numbered from the given id.
    unfoldable pub decode_actions : ℕ → List J → Option (List (ℕ × ActionState J))
    decode_actions id [] = some []
    decode_actions id (j ∷ js) = do
      action ← decode_action j
      actions ← decode_actions (suc id) js
      some ((id, action) ∷ actions)

    -- The fields that need not be there.
    abbrev pub decode_index : Option J → Option (Option ℤ)
    decode_index none = some none
    decode_index (some j) = do i ← json.to_int j; some (some i)

    abbrev pub decode_all_actions : Option J → Option (List (ℕ × ActionState J))
    decode_all_actions none = some []
    decode_all_actions (some j) = do js ← json.to_list j; decode_actions 0 js

    abbrev pub guard_version : ℤ → Option (ℕ × ℕ)
    guard_version version = if eq_int version (pos 1) then some (0, 0) else none

    -- `PersistentState::fromJson`, into a new state.
    unfoldable pub from_json : J → Option (PersistentState J)
    from_json j = do
      version_field ← json.lookup "version" j
      version ← json.to_int version_field
      ok ← guard_version version
      index ← decode_index (json.lookup "currentIndex" j)
      actions ← decode_all_actions (json.lookup "actions" j)
      checksum_field ← json.lookup "checksum" j
      checksum ← json.to_string checksum_field
      some (record {
        current_index = index;
        mission_checksum = checksum;
        continuous_actions = actions;
      })

    module _ (setup : Setup J) where
      -- `clearPersistentState`
      unfoldable pub clear_persistent_state : MissionExecutor J → MissionExecutor J
      clear_persistent_state s =
          if setup.has_persistence_file then record s { file = setup.remove_file s.file } else s

      -- `current_index.has_value() && indexValid(*current_index)`
      abbrev pub has_valid_index : Mission J → Option ℤ → Bool
      has_valid_index m none = false
      has_valid_index m (some i) = index_valid m i

      -- `savePersistentState`
      unfoldable pub save_persistent_state : MissionExecutor J → MissionExecutor J
      save_persistent_state s =
          if not setup.has_persistence_file
          then s
          else (if not (has_valid_index s.mission s.state.current_index)
              then clear_persistent_state s
              else record s { file = setup.write_file (to_json s.state) s.file })

      abbrev pub loadable : PersistentState J → MissionExecutor J → Bool
      loadable p s =
          str_eq p.mission_checksum (setup.checksum s.mission)
          && has_valid_index s.mission p.current_index

      -- `tryLoadPersistentState`
      unfoldable pub try_load_persistent_state : MissionExecutor J → Bool × MissionExecutor J
      try_load_persistent_state s =
          if not setup.has_persistence_file
          then (false, s)
          else elim (do content ← s.file; from_json content) [
            | none ↦ (false, s)
            | some p ↦ if loadable p s then (true, record s { state = p }) else (false, s)
          ]

      -- The two outcomes of loading.
      abbrev pub Loads : MissionExecutor J → Bool × MissionExecutor J → Type 0
      Loads s r =
          (r ≡ (false, s))
          ⊎ ((p : PersistentState J) × (r ≡ (true, record s { state = p }))
              × (has_valid_index s.mission p.current_index ≡ true))

      pub try_load_persistent_state_lem :
          (s : MissionExecutor J) → Loads s (try_load_persistent_state s)
      unfolding try_load_persistent_state
      try_load_persistent_state_lem s = go setup.has_persistence_file
        where
          of_loadable :
              (p : PersistentState J) (b : Bool)
              → loadable p s ≡ b
              → Loads s (if b then (true, record s { state = p }) else (false, s))
          of_loadable p true e = inr (p, refl, and_right _ _ e)
          of_loadable p false e = inl refl

          of_content :
              (o : Option (PersistentState J))
              → Loads s (elim o [
                | none ↦ (false, s)
                | some p ↦ if loadable p s then (true, record s { state = p }) else (false, s)
              ])
          of_content none = inl refl
          of_content (some p) = of_loadable p (loadable p s) refl

          go :
              (b : Bool)
              → Loads s (
                  if not b then (false, s) else elim (s.file >>= from_json) [
                    | none ↦ (false, s)
                    | some p ↦ if loadable p s then (true, record s { state = p }) else (false, s)
                  ])
          go true = of_content (s.file >>= from_json)
          go false = inl refl

      pub try_load_persistent_state-has_valid_mission :
          (s : MissionExecutor J)
          → (try_load_persistent_state s).1.has_valid_mission ≡ s.has_valid_mission
      try_load_persistent_state-has_valid_mission s = elim (try_load_persistent_state_lem s) [
        | inl e ↦ ap (λ r. r.1.has_valid_mission) e
        | inr (p, e, v) ↦ ap (λ r. r.1.has_valid_mission) e
      ]
