-- ===== src/Mission/Segments.antt =====
-- px4_ros2_cpp/src/mission/mission_executor.cpp: where a trajectory that starts at an item ends, and
-- whether the vehicle stops there.
use px4_ros.Base.{
  ℕ, zero, suc, ◌+◌, ◌-◌, ◌≡◌, ◌≤◌, ◌<◌, refl, sym, ap, ◌∙◌, Bool, true, false, ◌||◌, List, [], ◌∷◌,
  Option, none, some, ◌==◌, if◌then◌else◌, length, drop, drop-drop, get_elem?-drop, length-drop,
  get_elem?, any, arith,
}
use px4_ros.Mission.{Mission, MissionItem, navigation, action, ActionItem}
use px4_ros.Mission.Actions.{Actions}

or_order : (x y z : Bool) → (if x then true else y) || z ≡ y || (x || z)
or_order x y z = ground arith

if_or : (x y : Bool) → (if x then true else y) ≡ x || y
if_or true y = refl
if_or false y = refl

module _ {J : Type 0} where
  abbrev leading_navigations : List (MissionItem J) → ℕ
  leading_navigations (navigation item ∷ items) = suc (leading_navigations items)
  leading_navigations (action item ∷ items) = 0
  leading_navigations [] = 0

  abbrev pub is_navigation : Option (MissionItem J) → Bool
  is_navigation (some (navigation item)) = true
  is_navigation _ = false

  leading_navigations-le : (items : List (MissionItem J)) → leading_navigations items ≤ length items
  leading_navigations-le [] = omega arith
  leading_navigations-le (navigation item ∷ items) = omega (arith, leading_navigations-le items)
  leading_navigations-le (action item ∷ items) = omega arith

  leading_navigations-is_navigation :
      (items : List (MissionItem J)) (k : ℕ)
      → k < leading_navigations items
      → is_navigation (get_elem? items k) ≡ true
  leading_navigations-is_navigation (navigation item ∷ items) zero h = refl
  leading_navigations-is_navigation (navigation item ∷ items) (suc k) h =
      leading_navigations-is_navigation items k (omega arith)
  leading_navigations-is_navigation (action item ∷ items) k h = absurd (omega arith)
  leading_navigations-is_navigation [] k h = absurd (omega arith)

  leading_navigations_end :
      (items : List (MissionItem J))
      → is_navigation (get_elem? items (leading_navigations items)) ≡ false
  leading_navigations_end [] = refl
  leading_navigations_end (navigation item ∷ items) = leading_navigations_end items
  leading_navigations_end (action item ∷ items) = refl

module _ {J : Type 0} (actions : Actions J) where
  -- An action item that is known and wants the vehicle to stop before it.
  unfoldable pub wants_stop : ActionItem J → Bool
  wants_stop item = elim (actions item.name) [
    | none ↦ false
    | some a ↦ a.should_stop_at_waypoint item.arguments
  ]

  -- The inner loop, over the items after the end: it leaves at the first navigation item.
  unfoldable pub any_action_stops : List (MissionItem J) → Bool → Bool
  any_action_stops [] stop = stop
  any_action_stops (navigation item ∷ items) stop = stop
  any_action_stops (action item ∷ items) stop =
      any_action_stops items (if wants_stop item then true else stop)

  -- The outer loop, over the items after the index.
  unfoldable pub segment_loop : ℕ → List (MissionItem J) → ℕ × Bool
  segment_loop end_index [] = (end_index, false)
  segment_loop end_index (action item ∷ items) =
      (end_index, any_action_stops (action item ∷ items) false)
  segment_loop end_index (navigation item ∷ items) = segment_loop (end_index + 1) items

  -- `getNextTrajectorySegment`, at the index of an item.
  unfoldable pub get_next_trajectory_segment : Mission J → ℕ → ℕ × Bool
  get_next_trajectory_segment m start_index =
      let (end_index, should_stop_at_end) =
        segment_loop start_index (drop (start_index + 1) m.items) in
      (end_index, if end_index + 1 == length m.items then true else should_stop_at_end)

  -- The first action items of a list.
  abbrev pub leading_actions : List (MissionItem J) → List (ActionItem J)
  leading_actions (action item ∷ items) = item ∷ leading_actions items
  leading_actions (navigation item ∷ items) = []
  leading_actions [] = []

  -- A segment of the items from a start: its end, and whether the vehicle stops there.
  abbrev pub IsSegment : List (MissionItem J) → ℕ → ℕ × Bool → Type 0
  IsSegment items start_index (end_index, stop) =
      (start_index ≤ end_index)
      × (end_index < length items)
      × ((i : ℕ) → start_index < i → i ≤ end_index → is_navigation (get_elem? items i) ≡ true)
      × (is_navigation (get_elem? items (end_index + 1)) ≡ false)
      × (stop ≡ (
          end_index + 1 == length items
          || any wants_stop (leading_actions (drop (end_index + 1) items))))

  any_action_stops-any :
      (items : List (MissionItem J)) (stop : Bool)
      → any_action_stops items stop ≡ stop || any wants_stop (leading_actions items)
  unfolding any_action_stops
  any_action_stops-any [] stop = ground arith
  any_action_stops-any (navigation item ∷ items) stop = ground arith
  any_action_stops-any (action item ∷ items) stop =
      any_action_stops-any items (if wants_stop item then true else stop)
      ∙ or_order (wants_stop item) stop (any wants_stop (leading_actions items))

  segment_loop-end :
      (index : ℕ) (items : List (MissionItem J))
      → (segment_loop index items).0 ≡ index + leading_navigations items
  unfolding segment_loop
  segment_loop-end index [] = omega arith
  segment_loop-end index (action item ∷ items) = omega arith
  segment_loop-end index (navigation item ∷ items) =
      omega (arith, segment_loop-end (index + 1) items)

  segment_loop-stop :
      (index : ℕ) (items : List (MissionItem J))
      → (segment_loop index items).1
        ≡ any wants_stop (leading_actions (drop (leading_navigations items) items))
  unfolding segment_loop
  segment_loop-stop index [] = refl
  segment_loop-stop index (action item ∷ items) = any_action_stops-any (action item ∷ items) false
  segment_loop-stop index (navigation item ∷ items) = segment_loop-stop (index + 1) items

  -- For a trajectory that starts at an item of the mission: the end is an item at or after the
  -- start, and every item after the start up to the end is a navigation item. It is the farthest
  -- such end: no navigation item follows it. The vehicle stops there exactly if it is the last
  -- item, or if one of the actions that follow it, up to the next navigation item, is known and
  -- wants the vehicle to stop.
  pub get_next_trajectory_segment_lem :
      (m : Mission J) (start_index : ℕ)
      → start_index < length m.items
      → IsSegment m.items start_index (get_next_trajectory_segment m start_index)
  unfolding get_next_trajectory_segment
  get_next_trajectory_segment_lem m start_index h =
      let after = drop (start_index + 1) m.items in
      let n = leading_navigations after in
      let short = leading_navigations-le after in
      let size = length-drop (start_index + 1) m.items in
      let next : start_index + n + 1 ≡ start_index + 1 + n = omega arith in
      rw (segment_loop-end start_index after, segment_loop-stop start_index after)
        (
          omega arith,
          omega (arith, short, size),
          (λ i l u.
              let k = i - (start_index + 1) in
              let i_eq : start_index + 1 + k ≡ i = omega arith in
              ap (λ j. is_navigation (get_elem? m.items j)) (sym i_eq)
              ∙ ap is_navigation (sym (get_elem?-drop (start_index + 1) k m.items))
              ∙ leading_navigations-is_navigation after k (omega arith)),
          ap (λ j. is_navigation (get_elem? m.items j)) next
              ∙ ap is_navigation (sym (get_elem?-drop (start_index + 1) n m.items))
              ∙ leading_navigations_end after,
          ap
                (λ items.
                  if start_index + n + 1 == length m.items
                  then true
                  else any wants_stop (leading_actions items))
                (drop-drop n (start_index + 1) m.items ∙ ap (λ j. drop j m.items) (sym next))
              ∙ if_or (start_index + n + 1 == length m.items) _,
        )
