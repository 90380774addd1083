-- ===== src/HealthChecks.antt =====
-- px4_ros2_cpp/src/components/health_and_arming_checks.cpp and its header: the answer to the
-- autopilot's arming check requests, and the watchdog. The check callback is a mode's own code; it
-- acts through the reporter, so it is the list of the calls that it makes.
pub mod Laws
use px4_ros.Base.{
  ℕ, suc, ◌+◌, ◌*◌, ◌/◌, ◌%◌, ◌^◌, Bool, true, false, not, ◌&&◌, ◌||◌, List, [], ◌∷◌, ◌++◌, Option,
  none, some, ltb, leb, ◌==◌, if◌then◌else◌, length,
}
use px4_ros.Requirements.{
  RequirementFlags, ModeRequirements, fill_arming_check_reply, no_requirements,
}
use px4_ros.Px4Msgs.{Px4Msgs}
use px4_ros.WaitLoop.{Wait}
use px4_ros.Registration.{
  Registration, RegistrationSettings, ExtComponentReply, do_register as register,
}

-- `events::LogLevels`: the values of the two enumerations.
pub record LogLevels : Type 0 where
  pub external : ℕ
  pub internal : ℕ

-- `events::EventType`; the packed arguments are the event's own bytes.
pub record Event : Type 0 where
  pub id : ℕ
  pub log_levels : ℕ
  pub arguments : List ℕ

pub record Health : Type 0 where
  pub health_component_index : ℕ
  pub health_component_is_present : Bool
  pub health_component_warning : Bool
  pub health_component_error : Bool

-- `px4_msgs::msg::ArmingCheckReply`; `events` holds the first `num_events` entries of the array.
pub record ArmingCheckReply : Type 0 where
  pub registration_id : ℕ
  pub request_id : ℕ
  pub can_arm_and_run : Bool
  pub health : Health
  pub events : List Event
  pub requirements : ModeRequirements

-- A call of the reporter.
pub data Report : Type 0 where
  arming_check_failure : ℕ → LogLevels → List ℕ → Report
  set_health : Health → Report

-- `(uint8_t)internal << 4 | (uint8_t)external`, for levels below 16.
abbrev pub pack_levels : LogLevels → ℕ
pack_levels l = l.internal * 16 + l.external

-- `addEvent`: `false` if the array of `capacity` events is full.
pub add_event : ℕ → ℕ → LogLevels → List ℕ → ArmingCheckReply → ArmingCheckReply × Bool
add_event capacity event_id levels arguments r =
    if leb capacity (length r.events) then (r, false) else (
      record r {
        events =
            r.events
            ++ record { id = event_id; log_levels = pack_levels levels; arguments = arguments }
              ∷ [];
      },
      true,
    )

-- `armingCheckFailureExt` and `setHealth`; a full array is only logged.
unfoldable pub report : ℕ → Report → ArmingCheckReply → ArmingCheckReply
unfolding add_event
report capacity (arming_check_failure event_id levels arguments) r =
    (add_event capacity event_id levels arguments (record r { can_arm_and_run = false })).0
report capacity (set_health h) r = record r { health = h }

unfoldable pub report_all : ℕ → List Report → ArmingCheckReply → ArmingCheckReply
report_all capacity [] r = r
report_all capacity (c ∷ cs) r = report_all capacity cs (report capacity c r)

-- `px4_msgs::msg::ArmingCheckRequest`
pub record ArmingCheckRequest : Type 0 where
  pub request_id : ℕ
  pub valid_registrations_mask : ℕ

pub record HealthAndArmingChecks : Type 0 where
  pub check_triggered : Bool
  pub first_request : Bool
  pub mode_requirements : RequirementFlags
  pub shutdown_on_timeout : Bool
  pub has_watchdog_timer : Bool

unfoldable pub new : HealthAndArmingChecks
unfolding no_requirements
new = record {
  check_triggered = true;
  first_request = true;
  mode_requirements = no_requirements;
  shutdown_on_timeout = true;
  has_watchdog_timer = true;
}

-- `mask & (1U << id)`, for an id below 32.
abbrev pub bit_set : ℕ → ℕ → Bool
bit_set mask id = mask / 2 ^ id % 2 == 1

abbrev no_health : Health
no_health = record {
  health_component_index = 0;
  health_component_is_present = false;
  health_component_warning = false;
  health_component_error = false;
}

-- The reply before the check callback ran.
abbrev pub initial_reply : Registration → ArmingCheckRequest → RequirementFlags → ArmingCheckReply
initial_reply g msg q = record {
  registration_id = g.unregister_ext_component.arming_check_id;
  request_id = msg.request_id;
  can_arm_and_run = true;
  health = no_health;
  events = [];
  requirements = fill_arming_check_reply q;
}

-- The subscription's callback: the new state, and the reply that is published.
unfoldable pub on_request :
    ℕ
    → (List Report)
    → Registration
    → ArmingCheckRequest
    → HealthAndArmingChecks
    → HealthAndArmingChecks × Option ArmingCheckReply
on_request capacity reports g msg h =
    if g.registered
    then (
      record h {
        check_triggered =
            (h.first_request
              || bit_set msg.valid_registrations_mask g.unregister_ext_component.arming_check_id)
            || h.check_triggered;
        first_request = false;
      },
      some (report_all capacity reports (initial_reply g msg h.mode_requirements)),
    )
    else (h, none)

-- `watchdogTimerUpdate`: the new state, or `none` where the process is shut down.
unfoldable pub watchdog_timer_update :
    Registration → HealthAndArmingChecks → Option HealthAndArmingChecks
watchdog_timer_update g h =
    if g.registered
    then (if not h.check_triggered && h.shutdown_on_timeout
        then none
        else some (record h { check_triggered = false }))
    else some (record h { check_triggered = true })

-- The timer's callback, while there is a timer.
unfoldable pub watchdog_tick : Registration → HealthAndArmingChecks → Option HealthAndArmingChecks
watchdog_tick g h = if h.has_watchdog_timer then watchdog_timer_update g h else some h

unfoldable pub disable_watchdog_timer : HealthAndArmingChecks → HealthAndArmingChecks
disable_watchdog_timer h = record h { has_watchdog_timer = false }

unfoldable pub set_mode_requirements :
    RequirementFlags → HealthAndArmingChecks → HealthAndArmingChecks
set_mode_requirements q h = record h { mode_requirements = q }

-- The settings of a component that only has arming checks.
abbrev pub arming_check_settings : List ℕ → RegistrationSettings
arming_check_settings name = record {
  name = name;
  register_arming_check = true;
  register_mode = false;
  register_mode_executor = false;
  enable_replace_internal_mode = false;
  replace_internal_mode = 0;
  activate_mode_immediately = false;
  user_selectable = true;
}

-- `doRegister`, for a component without a mode: the new state, and the result of the registration.
unfoldable pub do_register :
    Px4Msgs
    → List ℕ
    → ℕ
    → (ℕ → List (Wait ExtComponentReply))
    → Registration
    → HealthAndArmingChecks
    → HealthAndArmingChecks × (Registration × Bool × ℕ)
do_register c name id waits g h =
    (record h { first_request = true }, register c (arming_check_settings name) id waits g)
