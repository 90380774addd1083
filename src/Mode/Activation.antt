-- ===== src/Mode/Activation.antt =====
-- px4_ros2_cpp/src/components/mode.cpp: the activation of a mode by the vehicle status, and the
-- timer of its setpoint updates. `now` is the time of the node's clock.
use px4_ros.Base.{ℕ, ◌-◌, Bool, true, false, ◌&&◌, ◌||◌, ◌==◌, if◌then◌else◌, lt32}
use px4_ros.Px4Msgs.{Px4Msgs, VehicleStatus}
use px4_ros.Mode.{
  Mode, Code, id, flt_epsilon, update_setpoint_update_timer, notify, on_activate, on_deactivate,
  first_setpoint, next_setpoint,
}

-- The immediate update, if a rate is set.
unfoldable pub update_first : Code → Mode → Mode
update_first code m =
    if lt32 flt_epsilon m.setpoint_update_rate_hz
    then notify code (first_setpoint m.setpoint_update_rate_hz) m
    else m

unfoldable pub call_on_activate : Code → ℕ → Mode → Mode
call_on_activate code now m = update_setpoint_update_timer (
    update_first code (
      notify code on_activate
        (record m { is_active = true; completed = false; last_setpoint_update = now })))

unfoldable pub call_on_deactivate : Code → Mode → Mode
call_on_deactivate code m =
    update_setpoint_update_timer (notify code on_deactivate (record m { is_active = false }))

-- The callback of the timer.
unfoldable pub on_setpoint_timer : Code → ℕ → Mode → Mode
on_setpoint_timer code now m =
    notify code (next_setpoint (now - m.last_setpoint_update))
      (record m { last_setpoint_update = now })

-- Whether a status selects the mode.
abbrev pub selects : Px4Msgs → VehicleStatus → Mode → Bool
selects c msg m =
    id m == msg.nav_state
    && (msg.arming_state == c.arming_state_armed || m.settings.activate_even_while_disarmed)

unfoldable pub vehicle_status_updated : Px4Msgs → Code → ℕ → VehicleStatus → Bool → Mode → Mode
vehicle_status_updated c code now msg do_not_activate m =
    let a = record m { is_armed = msg.arming_state == c.arming_state_armed } in
    if selects c msg m
    then (if m.is_active then a else if do_not_activate then a else call_on_activate code now a)
    else (if m.is_active then call_on_deactivate code a else a)
