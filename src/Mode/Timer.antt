-- ===== src/Mode/Timer.antt =====
-- The timer of the setpoint updates runs exactly while the mode is active with a rate above the
-- threshold, at that rate.
use px4_ros.Base.{
  ℕ, ◌≡◌, refl, ◌∙◌, Bool, true, false, ◌&&◌, ◌⊎◌, inl, inr, List, [], ◌∷◌, Option, none, some,
  ◌==◌, if◌then◌else◌, lt32, F32, arith, Bool-cases,
}
use px4_ros.Px4Msgs.{Px4Msgs, VehicleStatus}
use px4_ros.Requirements.{Configuration}
use px4_ros.Mode.{
  Mode, Code, Notice, id, flt_epsilon, update_setpoint_update_timer, notify, on_activate,
  on_deactivate, first_setpoint, complete, run_request, run_requests, Request, completes, sets_rate,
  updates, overrides, set_setpoint_update_rate, setpoint_update, publish_all, control_mode,
  notified, fill_control_mode, select, selected, emit, is_inactive_type,
}
use px4_ros.Mode.Activation.{
  update_first, call_on_activate, call_on_deactivate, vehicle_status_updated,
}

-- The timer that a mode should have.
abbrev pub due : Mode → Option F32
due m =
    if m.is_active && lt32 flt_epsilon m.setpoint_update_rate_hz
    then some m.setpoint_update_rate_hz
    else none

abbrev pub IsTimed : Mode → Type 0
IsTimed m = m.setpoint_update_timer ≡ due m

-- In between, while `is_active` has changed and the timer has not: it is off, or runs at the rate.
abbrev AtRate : Mode → Type 0
AtRate m =
    (m.setpoint_update_timer ≡ none) ⊎ (m.setpoint_update_timer ≡ some m.setpoint_update_rate_hz)

timer-IsTimed : (m : Mode) → AtRate m → IsTimed (update_setpoint_update_timer m)
unfolding update_setpoint_update_timer
timer-IsTimed m (inl e) = elim (Bool-cases (lt32 flt_epsilon m.setpoint_update_rate_hz)) [
  | inl p ↦ ground (arith, e, p)
  | inr p ↦ ground (arith, e, p)
]
timer-IsTimed m (inr e) = elim (Bool-cases (lt32 flt_epsilon m.setpoint_update_rate_hz)) [
  | inl p ↦ ground (arith, e, p)
  | inr p ↦ ground (arith, e, p)
]

AtRate-IsTimed : (m : Mode) → IsTimed m → AtRate m
AtRate-IsTimed m e = elim (Bool-cases (m.is_active && lt32 flt_epsilon m.setpoint_update_rate_hz)) [
  | inl p ↦ inr (e ∙ rw p)
  | inr p ↦ inl (e ∙ rw p)
]

publish_all-AtRate : (cs : List Configuration) (m : Mode) → AtRate m → AtRate (publish_all cs m)
publish_all-AtRate [] m h = h
publish_all-AtRate (c ∷ cs) m h =
    publish_all-AtRate cs (emit (control_mode (fill_control_mode (id m) c)) m) h

set_rate-AtRate : (rate_hz : F32) (m : Mode) → AtRate (set_setpoint_update_rate rate_hz m)
unfolding set_setpoint_update_rate
set_rate-AtRate rate_hz m =
    let a = record m { setpoint_update_timer = none; setpoint_update_rate_hz = rate_hz } in
    AtRate-IsTimed (update_setpoint_update_timer a) (timer-IsTimed a (inl refl))

run_request-AtRate : (r : Request) (m : Mode) → AtRate m → AtRate (run_request r m)
unfolding run_request complete setpoint_update
run_request-AtRate (completes result) m h = elim (Bool-cases m.completed) [
  | inl e ↦ rw e h
  | inr e ↦ rw e h
]
run_request-AtRate (sets_rate rate_hz) m h = set_rate-AtRate rate_hz m
run_request-AtRate (updates object) m h =
    elim (Bool-cases (is_inactive_type object m.setpoint_types)) [
      | inl e ↦ rw e (
          publish_all-AtRate (selected object m.setpoint_types)
            (record m { setpoint_types = select object m.setpoint_types }) h)
      | inr e ↦ rw e h
    ]
run_request-AtRate (overrides r) m h = h

run_requests-AtRate : (rs : List Request) (m : Mode) → AtRate m → AtRate (run_requests rs m)
unfolding run_requests
run_requests-AtRate [] m h = h
run_requests-AtRate (r ∷ rs) m h =
    run_requests-AtRate rs (run_request r m) (run_request-AtRate r m h)

notify-AtRate : (code : Code) (n : Notice) (m : Mode) → AtRate m → AtRate (notify code n m)
unfolding notify
notify-AtRate code n m h = let a = emit (notified n) m in run_requests-AtRate (code n a) a h

update_first-AtRate : (code : Code) (m : Mode) → AtRate m → AtRate (update_first code m)
unfolding update_first
update_first-AtRate code m h = elim (Bool-cases (lt32 flt_epsilon m.setpoint_update_rate_hz)) [
  | inl e ↦ rw (e, update_first) (notify-AtRate code (first_setpoint m.setpoint_update_rate_hz) m h)
  | inr e ↦ rw e h
]

activate-IsTimed :
    (code : Code) (now : ℕ) (m : Mode) → AtRate m → IsTimed (call_on_activate code now m)
unfolding call_on_activate
activate-IsTimed code now m h =
    let a = record m { is_active = true; completed = false; last_setpoint_update = now } in
    let b = notify code on_activate a in
    timer-IsTimed (update_first code b)
      (update_first-AtRate code b (notify-AtRate code on_activate a h))

deactivate-IsTimed : (code : Code) (m : Mode) → AtRate m → IsTimed (call_on_deactivate code m)
unfolding call_on_deactivate
deactivate-IsTimed code m h =
    let a = record m { is_active = false } in
    timer-IsTimed (notify code on_deactivate a) (notify-AtRate code on_deactivate a h)

-- Every vehicle status keeps the timer of the setpoint updates right, whatever the mode's own code
-- asks for when it is activated, deactivated or updated: the timer exists exactly while the mode
-- is active and its rate is above the threshold, and then it runs at that rate.
pub vehicle_status_updated-IsTimed :
    (c : Px4Msgs) (code : Code) (now : ℕ) (msg : VehicleStatus) (do_not_activate : Bool) (m : Mode)
    → IsTimed m
    → IsTimed (vehicle_status_updated c code now msg do_not_activate m)
unfolding vehicle_status_updated
vehicle_status_updated-IsTimed c code now msg dna m h =
    let a = record m { is_armed = msg.arming_state == c.arming_state_armed } in
    ground (
      arith,
      h,
      activate-IsTimed code now a (AtRate-IsTimed m h),
      deactivate-IsTimed code a (AtRate-IsTimed m h),
    )
