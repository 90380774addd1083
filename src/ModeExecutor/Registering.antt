-- ===== src/ModeExecutor/Registering.antt =====
-- px4_ros2_cpp/src/components/mode_executor.cpp: the registration of an executor with its mode, and
-- the deferral of failsafes, which waits until the autopilot has it.
use px4_ros.Base.{
  ℕ, ◌≡◌, refl, Bool, true, false, not, ◌&&◌, List, Option, none, some, ◌==◌, if◌then◌else◌,
  has_value, arith, ℤ, ◌⊎◌, inl, inr, ◌↔◌, Bool-cases, Option-cases, ◌++◌, ◌∷◌,
}
use px4_ros.Px4Msgs.{Px4Msgs, VehicleStatus}
use px4_ros.WaitLoop.{Wait, taken, await}
use px4_ros.WaitLoop.Laws.{await_taken, await_holds}
use px4_ros.Overrides
use px4_ros.Registration.{ExtComponentReply, do_register}
use px4_ros.Mode.Registering.{
  on_registered as mode_on_registered, on_about_to_register, get_registration_settings,
}
use px4_ros.ModeExecutor.{Executor, executor_id}
use px4_ros.ModeExecutor.Status.{is_immediate}

unfoldable pub on_registered : Px4Msgs → Executor → Executor
on_registered c s = record s {
  config_overrides = Overrides.setup c.source_type_mode_executor (executor_id s) s.config_overrides;
}

-- `doRegister`, with one registration for the executor and its mode. `compatible` is the result of
-- the checks that are made before it, if they are not skipped.
unfoldable pub register :
    Px4Msgs → Bool → Bool → ℕ → (ℕ → List (Wait ExtComponentReply)) → Executor → Executor × Bool
register c skip_check compatible request_id waits s =
    let m = on_about_to_register s.owned_mode in
    let settings = record (get_registration_settings m.settings) {
      register_mode_executor = true;
      activate_mode_immediately = is_immediate s.activation;
    } in
    let (g, ret, requests) = do_register c settings request_id waits s.registration in
    let b = record s { registration = g; owned_mode = record m { registration = g } } in
    let (n, ok) = mode_on_registered c b.owned_mode in
    if not skip_check && not compatible
    then (s, false)
    else (if ret then (on_registered c (record b { owned_mode = n }), ok) else (b, false))

-- A status that ends the wait.
unfoldable pub on_status : Px4Msgs → VehicleStatus → Option VehicleStatus
on_status c msg =
    if msg.failsafe_defer_state == c.failsafe_defer_state_disabled then none else some msg

unfoldable pub waits_for_deferral : Px4Msgs → Bool → Executor → Bool
waits_for_deferral c enabled s =
    enabled
    && s.is_in_charge
    && s.registration.registered
    && s.prev_failsafe_defer_state == c.failsafe_defer_state_disabled

-- `deferFailsafesSync`, with what the wait set returns within the second.
unfoldable pub defer_failsafes_sync :
    Px4Msgs → Bool → ℤ → List (Wait VehicleStatus) → Executor → Bool × Executor
defer_failsafes_sync c enabled timeout_s waits s =
    let a = record s {
      config_overrides = Overrides.defer_failsafes enabled timeout_s s.config_overrides;
    } in
    (if waits_for_deferral c enabled s then has_value (await (on_status c) waits) else true, a)

-- There is no deferral to wait for.
abbrev pub IsNeedless : Px4Msgs → Bool → Executor → Type 0
IsNeedless c enabled s =
    (enabled ≡ false)
    ⊎ ((s.is_in_charge ≡ false)
        ⊎ ((s.registration.registered ≡ false)
            ⊎ ¬ (s.prev_failsafe_defer_state ≡ c.failsafe_defer_state_disabled)))

-- A status with a deferral is taken.
abbrev pub Defers : Px4Msgs → List (Wait VehicleStatus) → Type 0
Defers c waits =
    (msg : VehicleStatus) × (before : List (Wait VehicleStatus)) × (after : List
      (Wait VehicleStatus))
    × (waits ≡ before ++ taken msg ∷ after)
    × ¬ (msg.failsafe_defer_state ≡ c.failsafe_defer_state_disabled)

waits_for_deferral-false :
    (c : Px4Msgs) (enabled : Bool) (s : Executor)
    → waits_for_deferral c enabled s ≡ false
    → IsNeedless c enabled s
unfolding waits_for_deferral
waits_for_deferral-false c enabled s h = elim (Bool-cases enabled) [
  | inr e ↦ inl e
  | inl e ↦ elim (Bool-cases s.is_in_charge) [
    | inr f ↦ inr (inl f)
    | inl f ↦ elim (Bool-cases s.registration.registered) [
      | inr g ↦ inr (inr (inl g))
      | inl g ↦ inr (inr (inr (λ q. ground arith)))
    ]
  ]
]

waits_for_deferral-true :
    (c : Px4Msgs) (enabled : Bool) (s : Executor)
    → waits_for_deferral c enabled s ≡ true
    → ¬ IsNeedless c enabled s
unfolding waits_for_deferral
waits_for_deferral-true c enabled s h (inl e) = ground arith
waits_for_deferral-true c enabled s h (inr (inl e)) = ground arith
waits_for_deferral-true c enabled s h (inr (inr (inl e))) = ground arith
waits_for_deferral-true c enabled s h (inr (inr (inr e))) = ground arith

on_status-defers :
    (c : Px4Msgs) (msg r : VehicleStatus)
    → on_status c msg ≡ some r
    → ¬ (msg.failsafe_defer_state ≡ c.failsafe_defer_state_disabled)
unfolding on_status
on_status-defers c msg r h e = ground arith

on_status-deferred :
    (c : Px4Msgs) (msg : VehicleStatus)
    → ¬ (msg.failsafe_defer_state ≡ c.failsafe_defer_state_disabled)
    → on_status c msg ≡ some msg
unfolding on_status
on_status-deferred c msg h = ground arith

await-Defers :
    (c : Px4Msgs) (waits : List (Wait VehicleStatus))
    → (has_value (await (on_status c) waits) ≡ true) ↔ Defers c waits
await-Defers c waits = (
  (λ h. elim (Option-cases (await (on_status c) waits)) [
    | inl e ↦ let q : has_value {A = VehicleStatus} none ≡ true = rw e at h in cc
    | inr (r, e) ↦
        let (msg, before, after, place, taking) = await_taken (on_status c) waits r e in
        (msg, before, after, place, on_status-defers c msg r taking)
  ]),
  (λ d.
      let (msg, before, after, place, differs) = d in
      rw place (await_holds (on_status c) before msg after msg (on_status-deferred c msg differs))),
)

-- Deferring failsafes gives true exactly if there is nothing to wait for (they are not to be
-- deferred, the executor is not in charge, it is not registered, or the state of the deferral in
-- the last status was not disabled), or a status whose state of the deferral is not disabled is
-- taken in time.
pub defer_failsafes_sync_iff :
    (c : Px4Msgs) (enabled : Bool) (timeout_s : ℤ) (waits : List (Wait VehicleStatus))
    (s : Executor)
    → ((defer_failsafes_sync c enabled timeout_s waits s).0 ≡ true)
      ↔ (IsNeedless c enabled s ⊎ Defers c waits)
unfolding defer_failsafes_sync
defer_failsafes_sync_iff c enabled timeout_s waits s =
    elim (Bool-cases (waits_for_deferral c enabled s)) [
      | inl w ↦
          let (to, from) = await-Defers c waits in
          (
            (λ h. inr (to (rw w at h))),
            (λ d. elim d [
              | inl n ↦ absurd (waits_for_deferral-true c enabled s w n)
              | inr m ↦ rw w (from m)
            ]),
          )
      | inr w ↦ ((λ h. inl (waits_for_deferral-false c enabled s w)), (λ d. rw w refl))
    ]
