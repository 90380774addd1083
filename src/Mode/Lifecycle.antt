-- ===== src/Mode/Lifecycle.antt =====
-- A mode is active exactly while the status selects it, and its own code is told of every change.
use px4_ros.Base.{
  ℕ, ◌≡◌, refl, ◌∙◌, Bool, true, false, not, ◌&&◌, ◌||◌, List, [], ◌∷◌, none, ◌==◌, lt32,
  Bool-cases, inl, inr, arith,
}
use px4_ros.Px4Msgs.{Px4Msgs, VehicleStatus}
use px4_ros.Requirements.{Configuration}
use px4_ros.Mode.{
  Mode, Code, Notice, id, flt_epsilon, update_setpoint_update_timer, notify, on_activate,
  on_deactivate, first_setpoint, complete, run_request, run_requests, Request, completes, sets_rate,
  updates, overrides, set_setpoint_update_rate, setpoint_update, publish_all, control_mode,
  notified, fill_control_mode, select, selected,
}
use px4_ros.Mode.Activation.{
  update_first, call_on_activate, call_on_deactivate, selects, vehicle_status_updated,
}

-- What a mode's own code cannot change.
pub record Keeps (m n : Mode) : Type 0 where
  pub active : n.is_active ≡ m.is_active
  pub armed : n.is_armed ≡ m.is_armed
  pub settings : n.settings ≡ m.settings
  pub registration : n.registration ≡ m.registration

pub Keeps-refl : (m : Mode) → Keeps m m
Keeps-refl m = record { active = refl; armed = refl; settings = refl; registration = refl }

pub Keeps-trans : {l m n : Mode} → Keeps l m → Keeps m n → Keeps l n
Keeps-trans h k = record {
  active = k.active ∙ h.active;
  armed = k.armed ∙ h.armed;
  settings = k.settings ∙ h.settings;
  registration = k.registration ∙ h.registration;
}

timer-Keeps : (m : Mode) → Keeps m (update_setpoint_update_timer m)
unfolding update_setpoint_update_timer
timer-Keeps m = ground arith

publish_all-Keeps : (cs : List Configuration) (m : Mode) → Keeps m (publish_all cs m)
publish_all-Keeps [] m = Keeps-refl m
publish_all-Keeps (c ∷ cs) m =
    Keeps-trans (record { active = refl; armed = refl; settings = refl; registration = refl })
      (publish_all-Keeps cs
        (record m { outputs = control_mode (fill_control_mode (id m) c) ∷ m.outputs }))

setpoint_update-Keeps : (object : ℕ) (m : Mode) → Keeps m (setpoint_update object m)
unfolding setpoint_update
setpoint_update-Keeps object m = ground (
  arith,
  publish_all-Keeps (selected object m.setpoint_types)
      (record m { setpoint_types = select object m.setpoint_types }),
)

run_request-Keeps : (r : Request) (m : Mode) → Keeps m (run_request r m)
unfolding run_request set_setpoint_update_rate complete
run_request-Keeps (completes result) m = ground arith
run_request-Keeps (sets_rate rate_hz) m = ground (
  arith,
  timer-Keeps (record m { setpoint_update_timer = none; setpoint_update_rate_hz = rate_hz }),
)
run_request-Keeps (updates object) m = setpoint_update-Keeps object m
run_request-Keeps (overrides r) m = record {
  active = refl;
  armed = refl;
  settings = refl;
  registration = refl;
}

run_requests-Keeps : (rs : List Request) (m : Mode) → Keeps m (run_requests rs m)
unfolding run_requests
run_requests-Keeps [] m = Keeps-refl m
run_requests-Keeps (r ∷ rs) m =
    Keeps-trans (run_request-Keeps r m) (run_requests-Keeps rs (run_request r m))

pub notify-Keeps : (code : Code) (n : Notice) (m : Mode) → Keeps m (notify code n m)
unfolding notify
notify-Keeps code n m =
    Keeps-trans (record { active = refl; armed = refl; settings = refl; registration = refl })
      (run_requests-Keeps (code n (record m { outputs = notified n ∷ m.outputs }))
        (record m { outputs = notified n ∷ m.outputs }))

update_first-Keeps : (code : Code) (m : Mode) → Keeps m (update_first code m)
unfolding update_first
update_first-Keeps code m = elim (Bool-cases (lt32 flt_epsilon m.setpoint_update_rate_hz)) [
  | inl e ↦ rw e (notify-Keeps code (first_setpoint m.setpoint_update_rate_hz) m)
  | inr e ↦ rw e (Keeps-refl m)
]

activate-Keeps :
    (code : Code) (now : ℕ) (m : Mode)
    → Keeps (record m { is_active = true }) (call_on_activate code now m)
unfolding call_on_activate
activate-Keeps code now m =
    let a = record m { is_active = true; completed = false; last_setpoint_update = now } in
    let b = notify code on_activate a in
    Keeps-trans (record { active = refl; armed = refl; settings = refl; registration = refl })
      (Keeps-trans (notify-Keeps code on_activate a)
        (Keeps-trans (update_first-Keeps code b) (timer-Keeps (update_first code b))))

deactivate-Keeps :
    (code : Code) (m : Mode) → Keeps (record m { is_active = false }) (call_on_deactivate code m)
unfolding call_on_deactivate
deactivate-Keeps code m =
    let a = record m { is_active = false } in
    Keeps-trans (notify-Keeps code on_deactivate a) (timer-Keeps (notify code on_deactivate a))

-- Whatever the mode's own code does: after a status the mode is armed as the status says, and
-- active exactly if the status selects it and it was active before or may be activated; its
-- registration stays.
pub vehicle_status_updated-active :
    (c : Px4Msgs) (code : Code) (now : ℕ) (msg : VehicleStatus) (do_not_activate : Bool) (m : Mode)
    → let n = vehicle_status_updated c code now msg do_not_activate m in
      (n.is_active ≡ (selects c msg m && (m.is_active || not do_not_activate)))
      × (n.is_armed ≡ (msg.arming_state == c.arming_state_armed))
      × (n.registration ≡ m.registration)
unfolding vehicle_status_updated
vehicle_status_updated-active c code now msg dna m =
    let a = record m { is_armed = msg.arming_state == c.arming_state_armed } in
    let up = activate-Keeps code now a in
    let down = deactivate-Keeps code a in
    ground (arith, up.active, up.armed, up.registration, down.active, down.armed, down.registration)
