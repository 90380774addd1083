-- ===== src/Mission/DefaultActions.antt =====
-- px4_ros2_cpp/src/mission/actions/default_actions.cpp: how the default resume action goes on with an
-- interrupted mission. The actions act through the handler; here each gives the step that it takes,
-- and what it does when that step completes.
use px4_ros.Base.{
  ℕ, suc, ◌≡◌, refl, ap, ◌∙◌, ℤ, pos, negsuc, inc, eq_int, lt_size, Bool, true, false, not, ◌&&◌,
  ◌||◌, List, [], ◌∷◌, ◌++◌, Option, none, some, String, str_eq, if◌then◌else◌, length, take,
  get_elem?, value_or, arith, ◌==◌,
}
use mathlib.Core.List.{reverse, reverse-cons, reverse-append, append_assoc}
use px4_ros.Mission.{
  Mission, MissionItem, navigation, action, ActionItem, NavigationItem, Waypoint, index_valid,
}

-- What the action does through its handler: it completes, at once or at another index, or it runs
-- the takeoff action first, or flies to one waypoint and then completes.
pub data Step (J : Type 0) : Type 0 where
  completes : Step J
  completes_at : ℤ → Step J
  runs_takeoff : ActionItem J → Step J
  flies_to : Waypoint → Step J
  does_nothing : Step J

suc_not_zero : (n : ℕ) → (suc n == 0) ≡ false
suc_not_zero n = ground arith

and_false : (b : Bool) → (b && false) ≡ false
and_false true = refl
and_false false = refl

module _ {J : Type 0} where
  -- The items before an index.
  abbrev pub before : ℤ → List (MissionItem J) → List (MissionItem J)
  before (pos n) items = take n items
  before (negsuc n) items = []

  -- The loop that looks for the takeoff action closest to the index.
  unfoldable pub latest_takeoff :
      List (MissionItem J) → Option (ActionItem J) → Option (ActionItem J)
  latest_takeoff [] found = found
  latest_takeoff (navigation item ∷ items) found = latest_takeoff items found
  latest_takeoff (action item ∷ items) found =
      latest_takeoff items (if str_eq item.name "takeoff" then some item else found)

  abbrev pub is_landing_item : Option (MissionItem J) → Bool
  is_landing_item (some (action item)) = str_eq item.name "rtl" || str_eq item.name "land"
  is_landing_item _ = false

  -- `mission.items()[index]`, where the index is valid.
  abbrev pub item_at : Mission J → ℤ → Option (MissionItem J)
  item_at m (pos n) = get_elem? m.items n
  item_at m (negsuc n) = none

  abbrev takeoff_step : Option (ActionItem J) → Step J
  takeoff_step none = completes
  takeoff_step (some item) = runs_takeoff item

  -- `OnResume::resumeFromUnexpectedLanding`
  unfoldable pub resume_from_unexpected_landing : Mission J → ℤ → Step J
  resume_from_unexpected_landing m index =
      if index_valid m index && is_landing_item (item_at m index)
      then completes_at (if lt_size (inc index) (length m.items) then inc index else pos 0)
      else takeoff_step (latest_takeoff (before index m.items) none)

  -- `OnResume::navigateToPreviousWaypoint`, once the takeoff is completed: the loop goes down.
  unfoldable pub first_waypoint : List (MissionItem J) → Step J
  first_waypoint [] = completes
  first_waypoint (navigation item ∷ items) = flies_to item.data_waypoint
  first_waypoint (action item ∷ items) = first_waypoint items

  unfoldable pub navigate_to_previous_waypoint : Mission J → ℤ → Step J
  navigate_to_previous_waypoint m index = first_waypoint (reverse (before index m.items))

  -- `OnResume::run`, with the current index and what the handler and the landing detector say.
  unfoldable pub on_resume : String → Option ℤ → Bool → Bool → Mission J → Step J
  on_resume what current_index landed supports_resume_from_landed m =
      let index = value_or current_index (pos 0) in
      if not (str_eq what "resume")
      then does_nothing
      else (if eq_int index (pos 0)
          then completes
          else (if landed && not supports_resume_from_landed
              then resume_from_unexpected_landing m index
              else completes))

  -- No takeoff among these items.
  abbrev pub NoTakeoff : List (MissionItem J) → Type 0
  NoTakeoff [] = Unit
  NoTakeoff (navigation item ∷ items) = NoTakeoff items
  NoTakeoff (action item ∷ items) = (str_eq item.name "takeoff" ≡ false) × NoTakeoff items

  latest_takeoff-NoTakeoff :
      (items : List (MissionItem J)) (found : Option (ActionItem J))
      → NoTakeoff items
      → latest_takeoff items found ≡ found
  unfolding latest_takeoff
  latest_takeoff-NoTakeoff [] found h = refl
  latest_takeoff-NoTakeoff (navigation item ∷ items) found h =
      latest_takeoff-NoTakeoff items found h
  latest_takeoff-NoTakeoff (action item ∷ items) found (h, hs) =
      ap (λ b. latest_takeoff items (if b then some item else found)) h
      ∙ latest_takeoff-NoTakeoff items found hs

  latest_takeoff-append :
      (front back : List (MissionItem J)) (item : ActionItem J) (found : Option (ActionItem J))
      → str_eq item.name "takeoff" ≡ true
      → NoTakeoff back
      → latest_takeoff (front ++ action item ∷ back) found ≡ some item
  unfolding latest_takeoff
  latest_takeoff-append [] back item found h hs =
      ap (λ b. latest_takeoff back (if b then some item else found)) h
      ∙ latest_takeoff-NoTakeoff back (some item) hs
  latest_takeoff-append (navigation x ∷ front) back item found h hs =
      latest_takeoff-append front back item found h hs
  latest_takeoff-append (action x ∷ front) back item found h hs =
      latest_takeoff-append front back item (if str_eq x.name "takeoff" then some x else found) h hs

  first_waypoint-append :
      (front back : List (MissionItem J))
      → first_waypoint front ≡ completes
      → first_waypoint (front ++ back) ≡ first_waypoint back
  unfolding first_waypoint
  first_waypoint-append [] back h = refl
  first_waypoint-append (navigation x ∷ front) back h = cc
  first_waypoint-append (action x ∷ front) back h = first_waypoint-append front back h

  -- When the mission is resumed at an index above 0 while landed, the current action does not
  -- support that, and the current item is not a return or a landing, then the takeoff action that
  -- is closest before the index is run first.
  pub on_resume-takeoff :
      (m : Mission J) (n : ℕ) (front back : List (MissionItem J)) (item : ActionItem J)
      → is_landing_item (get_elem? m.items (suc n)) ≡ false
      → take (suc n) m.items ≡ front ++ action item ∷ back
      → str_eq item.name "takeoff" ≡ true
      → NoTakeoff back
      → on_resume "resume" (some (pos (suc n))) true false m ≡ runs_takeoff item
  unfolding on_resume resume_from_unexpected_landing
  on_resume-takeoff m n front back item other e h hs =
      let valid = index_valid m (pos (suc n)) in
      let next = inc (pos (suc n)) in
      let skipped = completes_at (if lt_size next (length m.items) then next else pos 0) in
      let found = takeoff_step (latest_takeoff (take (suc n) m.items) none) in
      ap (λ b. if b then completes else resume_from_unexpected_landing m (pos (suc n)))
        (suc_not_zero n)
      ∙ ap (λ b. if b then skipped else found) (ap (λ b. valid && b) other ∙ and_false valid)
      ∙ ap (λ items. takeoff_step (latest_takeoff items none)) e
      ∙ ap takeoff_step (latest_takeoff-append front back item none h hs)

  abbrev pub only_actions : List (MissionItem J) → Bool
  only_actions [] = true
  only_actions (navigation item ∷ items) = false
  only_actions (action item ∷ items) = only_actions items

  first_waypoint-reverse :
      (items : List (MissionItem J))
      → only_actions items ≡ true
      → first_waypoint (reverse items) ≡ completes
  unfolding first_waypoint
  first_waypoint-reverse [] h = refl
  first_waypoint-reverse (navigation x ∷ items) h = cc
  first_waypoint-reverse (action x ∷ items) h =
      ap first_waypoint (reverse-cons (action x) items)
      ∙ first_waypoint-append (reverse items) (action x ∷ []) (first_waypoint-reverse items h)

  -- After that takeoff the vehicle flies to the last waypoint before the index: the one after
  -- which only actions stand before the index.
  pub navigate_to_previous_waypoint_lem :
      (m : Mission J) (n : ℕ) (front back : List (MissionItem J)) (item : NavigationItem)
      → take n m.items ≡ front ++ navigation item ∷ back
      → only_actions back ≡ true
      → navigate_to_previous_waypoint m (pos n) ≡ flies_to item.data_waypoint
  unfolding navigate_to_previous_waypoint first_waypoint
  navigate_to_previous_waypoint_lem m n front back item e h =
      ap (λ items. first_waypoint (reverse items)) e
      ∙ ap first_waypoint (
          reverse-append front (navigation item ∷ back)
          ∙ ap (λ items. items ++ reverse front) (reverse-cons (navigation item) back)
          ∙ append_assoc (reverse back) (navigation item ∷ []) (reverse front))
      ∙ first_waypoint-append (reverse back) (navigation item ∷ reverse front)
          (first_waypoint-reverse back h)
