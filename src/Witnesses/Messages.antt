-- ===== src/Witnesses/Messages.antt =====
-- Registration, commands, overrides, arming checks and shared subscriptions at concrete inputs.
use px4_ros.Base.{
  ◌⊎◌, ℕ, zero, suc, ◌≡◌, refl, ◌↔◌, true, false, List, [], ◌∷◌, ◌++◌, none, some, pos, All, arith,
  not, take, ◌<◌, ap,
}
use px4_ros.WaitLoop.{Wait, taken, not_taken, timed_out}
use px4_ros.Registration.{
  ExtComponentReply, accept_reply, do_register, same_bytes, c_string, new as new_registration,
  matches_request,
}
use px4_ros.Registration.Laws.{Foreign, do_register_replied, do_register_sound, Accepted, details}
use px4_ros.CommandSender
use px4_ros.CommandSender.Laws
use px4_ros.CommandSender.{
  Result, success, timeout, VehicleCommand, VehicleCommandAck, send_command_sync, max_commands,
  acknowledges,
}
use px4_ros.CommandSender.Laws.{
  verdict, send_command_sync_acknowledged, send_command_sync_timeout, send_command_sync_sound,
}
use px4_ros.Requirements.{no_requirements, fill_arming_check_reply}
use px4_ros.Overrides.{auto_disarm, failsafes, new, apply_all, setup, Request}
use px4_ros.Overrides.Laws.{settled, setup-apply_all}
use px4_ros.HealthChecks
use px4_ros.HealthChecks.{
  ArmingCheckRequest, HealthAndArmingChecks, arming_check_failure, watchdog_timer_update,
  ArmingCheckReply, on_request,
}
use px4_ros.HealthChecks.Laws.{
  has_failure, failure_events, on_request_reply, watchdog_stops_iff, any_valid, on_requests,
}
use px4_ros.SharedSubscription.{less_bytes, Key, Subscription, key_less}
use px4_ros.SharedSubscription.Registry.{key_less_both}
use px4_ros.Witnesses.Data.{px4, name_settings, registered_component}

-- The reply of the second attempt, after one that was not taken.
abbrev good_reply : ExtComponentReply
good_reply = record {
  request_id = 9;
  name = 65 ∷ 0 ∷ [];
  px4_ros2_api_version = 1;
  success = true;
  arming_check_id = 3;
  mode_id = 23;
  mode_executor_id = 1;
}

abbrev replies : ℕ → List (Wait ExtComponentReply)
replies zero = timed_out ∷ []
replies (suc n) = not_taken ∷ taken good_reply ∷ []

replies_before : (i : ℕ) → i < 1 → All (Foreign px4 name_settings 9) (replies i)
replies_before zero h = (tt, tt)
replies_before (suc i) h = absurd (omega arith)

do_register_replied_example : do_register px4 name_settings 9 replies new_registration ≡ (
  accept_reply name_settings good_reply new_registration,
  (accept_reply name_settings good_reply new_registration).registered,
  2,
)
unfolding matches_request same_bytes c_string
do_register_replied_example =
    do_register_replied px4 name_settings 9 replies new_registration 1 (not_taken ∷ []) []
      good_reply (omega arith) (omega arith) replies_before refl (tt, tt) refl

do_register_sound_example :
    (i : ℕ) × (r : ExtComponentReply) × Accepted px4 name_settings 9 replies new_registration i r
    × ((do_register px4 name_settings 9 replies new_registration).0.unregister_ext_component
        ≡ details name_settings r)
unfolding new_registration accept_reply
do_register_sound_example =
    do_register_sound px4 name_settings 9 replies new_registration refl
      (ap (λ r. r.1) do_register_replied_example)

abbrev arm_command : VehicleCommand
arm_command = record {
  command = 400;
  param1 = 0;
  param2 = 0;
  param3 = 0;
  param4 = 0;
  param5 = 0;
  param6 = 0;
  param7 = 0;
  source_component = 1001;
}

abbrev accepted : VehicleCommandAck
accepted = record { command = 400; result = 0; target_component = 1001 }

abbrev acks : ℕ → List (Wait VehicleCommandAck)
acks n = not_taken ∷ taken accepted ∷ []

nothing_before : (i : ℕ) → i < 0 → All (CommandSender.Laws.Foreign px4 arm_command) (acks i)
nothing_before i h = absurd (omega arith)

send_command_sync_acknowledged_example :
    send_command_sync px4 arm_command acks ≡ (verdict px4 accepted, 1)
unfolding acknowledges
send_command_sync_acknowledged_example =
    send_command_sync_acknowledged px4 arm_command acks 0 (not_taken ∷ []) [] accepted (omega arith)
      nothing_before refl (tt, tt) refl

send_command_sync_sound_example :
    (i : ℕ) × (ack : VehicleCommandAck) × (before : List (Wait VehicleCommandAck)) × (after : List
      (Wait VehicleCommandAck))
    × (i < max_commands)
    × (acks i ≡ before ++ taken ack ∷ after)
    × (ack.command ≡ 400)
    × (ack.target_component ≡ 1001)
    × (ack.result ≡ px4.vehicle_cmd_result_accepted)
send_command_sync_sound_example =
    send_command_sync_sound px4 arm_command acks
      (ap (λ r. r.0) send_command_sync_acknowledged_example)

abbrev no_acks : ℕ → List (Wait VehicleCommandAck)
no_acks n = timed_out ∷ []

abbrev requests : List Request
requests = auto_disarm false ∷ failsafes true (pos 5) ∷ []

setup-apply_all_example :
    ((apply_all requests new).published ≡ [])
    × ((setup 0 23 (apply_all requests new)).published
        ≡ settled 0 23 requests new.current_overrides ∷ [])
    × ((setup 0 23 (apply_all requests new)).is_setup ≡ true)
    × ((setup 0 23 (apply_all requests new)).require_update_after_setup ≡ false)
setup-apply_all_example = setup-apply_all requests 0 23

abbrev failing : List HealthChecks.Report
failing = arming_check_failure 77 (record { external = 3; internal = 4 }) (1 ∷ []) ∷ []

abbrev check_request : ArmingCheckRequest
check_request = record { request_id = 6; valid_registrations_mask = 8 }

abbrev running_checks : HealthAndArmingChecks
running_checks = record {
  check_triggered = false;
  first_request = false;
  mode_requirements = no_requirements;
  shutdown_on_timeout = true;
  has_watchdog_timer = true;
}

on_request_reply_example :
    (r : ArmingCheckReply) × ((on_request 5 failing registered_component check_request
        running_checks).1
      ≡ some r)
    × (r.can_arm_and_run ≡ not (has_failure failing))
    × (r.events ≡ take 5 (failure_events failing))
    × (r.requirements ≡ fill_arming_check_reply running_checks.mode_requirements)
    × (r.registration_id ≡ 3)
    × (r.request_id ≡ 6)
on_request_reply_example =
    on_request_reply 5 failing registered_component check_request running_checks refl

watchdog_stops_iff_example :
    (watchdog_timer_update registered_component
        (on_requests registered_component (check_request ∷ []) running_checks)
      ≡ none)
    ↔ ((any_valid registered_component (check_request ∷ []) ≡ false)
        × ((false ≡ false) ⊎ (check_request ∷ [] ≡ [])))
watchdog_stops_iff_example =
    watchdog_stops_iff registered_component (check_request ∷ []) running_checks refl refl refl

abbrev one_callback : Subscription ℕ
one_callback = record { next_token = 2; callbacks = (1, 40) ∷ [] }

abbrev low_node : Key
low_node = record { node = 1; topic_name = 98 ∷ [] }

abbrev high_node : Key
high_node = record { node = 2; topic_name = 97 ∷ [] }

key_less_both_example : (key_less low_node high_node ≡ true) × (key_less high_node low_node ≡ true)
unfolding less_bytes
key_less_both_example = key_less_both low_node high_node (omega arith) refl

abbrev other_topic : Key
other_topic = record { node = 1; topic_name = 99 ∷ [] }

abbrev table : List (Key × Subscription ℕ)
table = (low_node, one_callback) ∷ []
