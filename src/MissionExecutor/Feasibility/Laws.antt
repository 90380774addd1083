-- ===== src/MissionExecutor/Feasibility/Laws.antt =====
-- A mission that is set is valid exactly if it can be run, and where it then starts.
use mathlib.Core.Bool.{false≢true}
use px4_ros.Base.{
  ◌≡◌, refl, sym, ap, ◌∙◌, ◌⊎◌, Bool, true, false, not, ◌&&◌, ◌||◌, List, [], ◌∷◌, ◌++◌, is_empty,
  none, String, if◌then◌else◌, has_value, arith, Bool-cases, inl, inr,
}
use Prim.Native.String.{◌++◌ as concat}
use px4_ros.Json.{JsonOps}
use px4_ros.Mission.{
  Mission, MissionItem, navigation, action, mission_frame_str, waypoint, MissionFrame,
}
use px4_ros.MissionExecutor.{MissionExecutor, Setup}
use px4_ros.MissionExecutor.Stored.{
  has_valid_index, Loads, try_load_persistent_state_lem,
  try_load_persistent_state-has_valid_mission, reset_mission_state, try_load_persistent_state,
}
use px4_ros.MissionExecutor.Feasibility.{
  check_item, check_items, report_unsupported_item, report_unsupported_frame, Check, no_errors,
  mission_errors_of, set_mission, with_mission, check_readyness_and_report, check_actions,
}

if_same {ℓ κ} :
    {A : Type ℓ} {B : Type κ}
    → (b : Bool) (x y : A) (f : A → B) → f x ≡ f y
    → f (if b then x else y) ≡ f y
if_same true x y f p = p
if_same false x y f p = refl

and_assoc : (x y z : Bool) → ((x && y) && z) ≡ (x && (y && z))
and_assoc x y z = ground arith

module _ {J : Type 0} (json : JsonOps J) (setup : Setup J) where
  -- What the executor can run.
  abbrev pub item_supported : MissionItem J → Bool
  item_supported (navigation item) =
      setup.navigation_item_type_supported waypoint
      && setup.frame_supported item.data_waypoint.frame
  item_supported (action item) = has_value (setup.actions item.name)

  abbrev pub all_supported : List (MissionItem J) → Bool
  all_supported [] = true
  all_supported (item ∷ items) = item_supported item && all_supported items

  abbrev pub is_feasible : Mission J → Bool
  is_feasible m = not (is_empty m.items) && all_supported m.items

  -- Each flag of the loop stands for an error that is in the list.
  abbrev IsSound : Check json setup → Type 0
  IsSound k = ((k.navigation_item_unsupported || k.frame_unsupported) && is_empty k.errors) ≡ false

  is_empty-append_one : (xs : List String) (x : String) → is_empty (xs ++ (x ∷ [])) ≡ false
  is_empty-append_one [] x = refl
  is_empty-append_one (y ∷ xs) x = refl

  report_unsupported_item-is_empty :
      (k : Check json setup)
      → IsSound k
      → IsSound (report_unsupported_item json setup k)
        × (is_empty (report_unsupported_item json setup k).errors
            ≡ is_empty k.errors && setup.navigation_item_type_supported waypoint)
  unfolding report_unsupported_item
  report_unsupported_item-is_empty k h =
      let e =
        is_empty-append_one k.errors "Mission contains unsupported navigation item: waypoint" in
      elim (Bool-cases (setup.navigation_item_type_supported waypoint)) [
        | inl p ↦ rw p (ground arith)
        | inr p ↦ rw p (elim (Bool-cases k.navigation_item_unsupported) [
          | inl q ↦ rw q (ground arith)
          | inr q ↦ rw q (rw e (ground arith))
        ])
      ]

  report_unsupported_frame-is_empty :
      (frame : MissionFrame) (k : Check json setup)
      → IsSound k
      → IsSound (report_unsupported_frame json setup frame k)
        × (is_empty (report_unsupported_frame json setup frame k).errors
            ≡ is_empty k.errors && setup.frame_supported frame)
  unfolding report_unsupported_frame
  report_unsupported_frame-is_empty frame k h =
      let e = is_empty-append_one k.errors (
        concat "Mission contains navigation item with unsupported frame: "
          (mission_frame_str frame)) in
      elim (Bool-cases (setup.frame_supported frame)) [
        | inl p ↦ rw p (ground arith)
        | inr p ↦ rw p (elim (Bool-cases k.frame_unsupported) [
          | inl q ↦ rw q (ground arith)
          | inr q ↦ rw q (rw e (ground arith))
        ])
      ]

  check_item-is_empty :
      (item : MissionItem J) (k : Check json setup)
      → IsSound k
      → IsSound (check_item json setup item k)
        × (is_empty (check_item json setup item k).errors
            ≡ is_empty k.errors && item_supported item)
  unfolding check_item
  check_item-is_empty (navigation item) k h =
      let (sound, e) = report_unsupported_item-is_empty k h in
      let (sound', e') =
        report_unsupported_frame-is_empty item.data_waypoint.frame
          (report_unsupported_item json setup k) sound in
      (
        sound',
        e'
            ∙ ap (λ b. b && setup.frame_supported item.data_waypoint.frame) e
            ∙ and_assoc (is_empty k.errors) (setup.navigation_item_type_supported waypoint)
                (setup.frame_supported item.data_waypoint.frame),
      )
  check_item-is_empty (action item) k h =
      let e =
        is_empty-append_one k.errors
          (concat "Mission contains unknown action '" (concat item.name "'")) in
      elim (Bool-cases (has_value (setup.actions item.name))) [
        | inl p ↦ rw p (ground arith)
        | inr p ↦ rw p (rw e (ground arith))
      ]

  check_items-is_empty :
      (items : List (MissionItem J)) (k : Check json setup)
      → IsSound k
      → is_empty (check_items json setup items k).errors ≡ is_empty k.errors && all_supported items
  unfolding check_items
  check_items-is_empty [] k h = ground arith
  check_items-is_empty (item ∷ items) k h =
      let (sound, e) = check_item-is_empty item k h in
      check_items-is_empty items (check_item json setup item k) sound
      ∙ ap (λ b. b && all_supported items) e
      ∙ and_assoc (is_empty k.errors) (item_supported item) (all_supported items)

  mission_errors_of-is_empty :
      (m : Mission J) → is_empty (mission_errors_of json setup m) ≡ is_feasible m
  unfolding mission_errors_of
  mission_errors_of-is_empty m = elim (Bool-cases (is_empty m.items)) [
    | inl e ↦ rw e (
        is_empty-append_one (check_items json setup m.items (no_errors json setup)).errors
          "Mission contains no mission items")
    | inr e ↦ rw e (check_items-is_empty m.items (no_errors json setup) refl)
  ]

  check_readyness_and_report-has_valid_mission :
      (s : MissionExecutor J)
      → (check_readyness_and_report json setup s).has_valid_mission ≡ s.has_valid_mission
  unfolding check_readyness_and_report
  check_readyness_and_report-has_valid_mission s =
      if_same s.is_active s (check_actions json setup s) (λ t. t.has_valid_mission) refl

  check_readyness_and_report-mission :
      (s : MissionExecutor J) → (check_readyness_and_report json setup s).mission ≡ s.mission
  unfolding check_readyness_and_report
  check_readyness_and_report-mission s =
      if_same s.is_active s (check_actions json setup s) (λ t. t.mission) refl

  after_load-has_valid_mission :
      (r : Bool × MissionExecutor J)
      → (if r.0 then r.1 else reset_mission_state r.1).has_valid_mission ≡ r.1.has_valid_mission
  unfolding reset_mission_state
  after_load-has_valid_mission (true, t) = refl
  after_load-has_valid_mission (false, t) = refl

  -- A mission that is set while the executor is not active counts as valid exactly if it has an
  -- item and every item can be run: the trajectory executor supports waypoints and the frame of
  -- each navigation item, and each action item names a known action.
  pub set_mission-has_valid_mission :
      (m : Mission J) (s : MissionExecutor J)
      → s.is_active ≡ false
      → (set_mission json setup m s).has_valid_mission ≡ is_feasible m
  unfolding set_mission
  set_mission-has_valid_mission m s h =
      let checked = check_readyness_and_report json setup (with_mission json setup m s) in
      let loaded = try_load_persistent_state json setup checked in
      ap
        (λ b.
          (if b
            then s
            else (if loaded.0 then loaded.1 else reset_mission_state loaded.1)).has_valid_mission)
        h
      ∙ after_load-has_valid_mission loaded
      ∙ try_load_persistent_state-has_valid_mission json setup checked
      ∙ check_readyness_and_report-has_valid_mission (with_mission json setup m s)
      ∙ mission_errors_of-is_empty m

  abbrev IsAtStart : MissionExecutor J → Type 0
  IsAtStart s = (s.state.current_index ≡ none) × (s.state.continuous_actions ≡ [])

  abbrev IsAtItem : Mission J → MissionExecutor J → Type 0
  IsAtItem m s = has_valid_index json setup m s.state.current_index ≡ true

  abbrev pub IsPlaced : Mission J → MissionExecutor J → Type 0
  IsPlaced m t = (t.mission ≡ m) × (IsAtStart t ⊎ IsAtItem m t)

  after_load-IsPlaced :
      (m : Mission J) (s : MissionExecutor J) (r : Bool × MissionExecutor J)
      → s.mission ≡ m
      → Loads json setup s r
      → IsPlaced m (if r.0 then r.1 else reset_mission_state r.1)
  unfolding reset_mission_state
  after_load-IsPlaced m s r same (inl e) = rw e (same, inl (refl, refl))
  after_load-IsPlaced m s r same (inr (p, e, v)) =
      rw e (same, inr (ap (λ n. has_valid_index json setup n p.current_index) (sym same) ∙ v))

  not_active-IsPlaced :
      (m : Mission J) (b : Bool) (s t : MissionExecutor J)
      → b ≡ false
      → IsPlaced m t
      → IsPlaced m (if b then s else t)
  not_active-IsPlaced m true s t h p = absurd (false≢true (sym h))
  not_active-IsPlaced m false s t h p = p

  -- After a mission is set while the executor is not active, it is the current one, and the
  -- executor is at its start, with no continuous action, or at the index of one of its items.
  pub set_mission-IsPlaced :
      (m : Mission J) (s : MissionExecutor J)
      → s.is_active ≡ false
      → IsPlaced m (set_mission json setup m s)
  unfolding set_mission
  set_mission-IsPlaced m s h =
      let checked = check_readyness_and_report json setup (with_mission json setup m s) in
      let loaded = try_load_persistent_state json setup checked in
      not_active-IsPlaced m s.is_active s
        (if loaded.0 then loaded.1 else reset_mission_state loaded.1) h
        (after_load-IsPlaced m checked loaded
          (check_readyness_and_report-mission (with_mission json setup m s))
          (try_load_persistent_state_lem json setup checked))
