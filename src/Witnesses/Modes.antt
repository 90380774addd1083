-- ===== src/Witnesses/Modes.antt =====
-- Modes at concrete inputs. The mode's own code here completes at once when it is activated.
use px4_ros.Base.{◌≡◌, refl, false, not, ◌&&◌, ◌||◌, List, [], ◌∷◌, ◌++◌, ◌==◌, if◌then◌else◌}
use px4_ros.CommandSender.{success}
use px4_ros.Mode.{
  Code, on_activate, Request, completes, sets_rate, updates, run_requests, setpoint_update, id,
}
use px4_ros.Mode.Activation.{vehicle_status_updated, selects}
use px4_ros.Mode.Lifecycle.{vehicle_status_updated-active}
use px4_ros.Mode.Setpoints.{
  OnlyActive, is_registered, setpoint_update-OnlyActive, needs, needs_position, needs_altitude,
  update_mode_requirements_complete,
}
use px4_ros.Mode.Registering.{update_mode_requirements_from_setpoints}
use px4_ros.Mode.Timer.{IsTimed, vehicle_status_updated-IsTimed}
use px4_ros.Mode.Completion.{completions, report_of, first_result, run_requests-completions}
use px4_ros.Witnesses.Data.{px4, armed_status, idle_mode}

abbrev pub eager : Code
eager on_activate m = sets_rate 0x41200000 ∷ completes success ∷ []
eager _ m = updates 8 ∷ []

vehicle_status_updated-active_example :
    let n = vehicle_status_updated px4 eager 5 armed_status false idle_mode in
    (n.is_active ≡ (selects px4 armed_status idle_mode && (idle_mode.is_active || not false)))
    × (n.is_armed ≡ (armed_status.arming_state == px4.arming_state_armed))
    × (n.registration ≡ idle_mode.registration)
vehicle_status_updated-active_example =
    vehicle_status_updated-active px4 eager 5 armed_status false idle_mode

idle_mode-IsTimed : IsTimed idle_mode
idle_mode-IsTimed = refl

vehicle_status_updated-IsTimed_example :
    IsTimed (vehicle_status_updated px4 eager 5 armed_status false idle_mode)
vehicle_status_updated-IsTimed_example =
    vehicle_status_updated-IsTimed px4 eager 5 armed_status false idle_mode idle_mode-IsTimed

setpoint_update-OnlyActive_example : OnlyActive 8 (setpoint_update 8 idle_mode).setpoint_types
unfolding is_registered
setpoint_update-OnlyActive_example =
    setpoint_update-OnlyActive 8 7 idle_mode (refl, (refl, tt)) refl

update_mode_requirements_complete_example :
    let q = (update_mode_requirements_from_setpoints idle_mode).requirements in
    let r = idle_mode.requirements in
    let ts = idle_mode.setpoint_types in
    (q.angular_velocity ≡ (r.angular_velocity || needs (λ c. c.rates_enabled) ts))
    × (q.attitude ≡ (r.attitude || needs (λ c. c.attitude_enabled) ts))
    × (q.local_alt ≡ (r.local_alt || needs needs_altitude ts))
    × (q.local_position ≡ ((r.local_position || needs needs_position ts) && not r.manual_control))
    × (q.local_position_relaxed ≡ (
        r.local_position_relaxed
        || ((r.local_position || needs needs_position ts) && r.manual_control)))
update_mode_requirements_complete_example = update_mode_requirements_complete idle_mode

abbrev twice : List Request
twice = updates 8 ∷ completes success ∷ completes success ∷ []

run_requests-completions_example :
    completions (run_requests twice idle_mode).outputs
    ≡ (if idle_mode.completed then [] else report_of (id idle_mode) (first_result twice))
      ++ completions idle_mode.outputs
run_requests-completions_example = run_requests-completions twice idle_mode
