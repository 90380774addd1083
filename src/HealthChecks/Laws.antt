-- ===== src/HealthChecks/Laws.antt =====
-- The reply says what the checks reported, and the watchdog stops the process exactly when no valid
-- request came between two ticks.
use px4_ros.Base.{
  ℕ, ◌≤◌, ◌≡◌, refl, ◌↔◌, Bool, true, false, not, ◌&&◌, ◌||◌, List, [], ◌∷◌, ◌++◌, none, some,
  arith, leb, if◌then◌else◌, length, length-append, take, ◌∙◌, sym, ap, take-ge, take-append_full,
  leb→le, ◌<◌, any, Bool-cases, inl, inr, is_empty, ◌⊎◌,
}
use mathlib.Core.List.{append-nil, append_assoc}
use px4_ros.Requirements.{fill_arming_check_reply}
use px4_ros.Px4Msgs.{Px4Msgs}
use px4_ros.WaitLoop.{Wait}
use px4_ros.Registration.{Registration, ExtComponentReply}
use px4_ros.HealthChecks.{
  LogLevels, Report, arming_check_failure, set_health, ArmingCheckReply, ArmingCheckRequest,
  HealthAndArmingChecks, Event, report, report_all, on_request, watchdog_timer_update, bit_set,
  initial_reply, pack_levels, do_register,
}

-- Whether a check failed.
pub has_failure : List Report → Bool
has_failure [] = false
has_failure (arming_check_failure event_id levels arguments ∷ cs) = true
has_failure (set_health h ∷ cs) = has_failure cs

-- The events of the failures, in order.
pub failure_events : List Report → List Event
failure_events [] = []
failure_events (arming_check_failure event_id levels arguments ∷ cs) =
    record { id = event_id; log_levels = pack_levels levels; arguments = arguments }
    ∷ failure_events cs
failure_events (set_health h ∷ cs) = failure_events cs

has_failure-cons :
    (b : Bool) (c : Report) (cs : List Report)
    → (b && not (has_failure (c ∷ [])) && not (has_failure cs)) ≡ (b && not (has_failure (c ∷ cs)))
unfolding has_failure
has_failure-cons b (arming_check_failure event_id levels arguments) cs = ground arith
has_failure-cons b (set_health h) cs = ground arith

report_can_arm :
    (capacity : ℕ) (c : Report) (r : ArmingCheckReply)
    → (report capacity c r).can_arm_and_run ≡ (r.can_arm_and_run && not (has_failure (c ∷ [])))
unfolding report has_failure
report_can_arm capacity (arming_check_failure event_id levels arguments) r = ground arith
report_can_arm capacity (set_health h) r = ground arith

report_all-can_arm :
    (capacity : ℕ) (cs : List Report) (r : ArmingCheckReply)
    → (report_all capacity cs r).can_arm_and_run ≡ (r.can_arm_and_run && not (has_failure cs))
unfolding report_all has_failure
report_all-can_arm capacity [] r = ground arith
report_all-can_arm capacity (c ∷ cs) r =
    report_all-can_arm capacity cs (report capacity c r)
    ∙ rw (report_can_arm capacity c r) (has_failure-cons r.can_arm_and_run c cs)

report_kept :
    (capacity : ℕ) (c : Report) (r : ArmingCheckReply)
    → ((report capacity c r).requirements ≡ r.requirements)
      × ((report capacity c r).registration_id ≡ r.registration_id)
      × ((report capacity c r).request_id ≡ r.request_id)
unfolding report
report_kept capacity (arming_check_failure event_id levels arguments) r = ground arith
report_kept capacity (set_health h) r = (refl, refl, refl)

report_all_kept :
    (capacity : ℕ) (cs : List Report) (r : ArmingCheckReply)
    → ((report_all capacity cs r).requirements ≡ r.requirements)
      × ((report_all capacity cs r).registration_id ≡ r.registration_id)
      × ((report_all capacity cs r).request_id ≡ r.request_id)
unfolding report_all
report_all_kept capacity [] r = (refl, refl, refl)
report_all_kept capacity (c ∷ cs) r =
    let (a, b, d) = report_kept capacity c r in
    let (a', b', d') = report_all_kept capacity cs (report capacity c r) in (a' ∙ a, b' ∙ b, d' ∙ d)

-- Events are added as long as there is room.
add_while_room : ℕ → List Event → List Event → List Event
add_while_room capacity es [] = es
add_while_room capacity es (f ∷ fs) =
    add_while_room capacity (if leb capacity (length es) then es else es ++ f ∷ []) fs

report_event :
    (capacity event_id : ℕ) (levels : LogLevels) (arguments : List ℕ) (r : ArmingCheckReply)
    → (report capacity (arming_check_failure event_id levels arguments) r).events ≡ (
        if leb capacity (length r.events)
        then r.events
        else r.events
          ++ record { id = event_id; log_levels = pack_levels levels; arguments = arguments } ∷ [])
unfolding report
report_event capacity event_id levels arguments r = ground arith

report_all-events :
    (capacity : ℕ) (cs : List Report) (r : ArmingCheckReply)
    → (report_all capacity cs r).events ≡ add_while_room capacity r.events (failure_events cs)
unfolding report_all report failure_events add_while_room
report_all-events capacity [] r = refl
report_all-events capacity (arming_check_failure event_id levels arguments ∷ cs) r =
    report_all-events capacity cs
      (report capacity (arming_check_failure event_id levels arguments) r)
    ∙ ap (λ (es : List Event). add_while_room capacity es (failure_events cs))
        (report_event capacity event_id levels arguments r)
report_all-events capacity (set_health h ∷ cs) r =
    report_all-events capacity cs (record r { health = h })

add_while_room-take :
    (capacity : ℕ) (es fs : List Event)
    → length es ≤ capacity
    → add_while_room capacity es fs ≡ take capacity (es ++ fs)
unfolding add_while_room
add_while_room-take capacity es [] h = rw append-nil (sym (take-ge capacity es h))
add_while_room-take capacity es (f ∷ fs) h = elim (Bool-cases (leb capacity (length es))) [
  | inl e ↦
      let full : length es ≡ capacity = omega (arith, leb→le _ _ e) in
      rw e (
        add_while_room-take capacity es fs h
        ∙ take-append_full capacity es fs full
        ∙ sym (take-append_full capacity es (f ∷ fs) full))
  | inr e ↦ rw e (
      add_while_room-take capacity (es ++ f ∷ []) fs
        (omega (arith, length-append es (f ∷ []), room e))
      ∙ rw (append_assoc es (f ∷ []) fs))
]
  where
    room : leb capacity (length es) ≡ false → length es < capacity
    room e = ground arith

-- A registered component answers every request, with its own and the request's id and the mode's
-- requirements; it may arm exactly if no check reported a failure, also where the events of the
-- failures do not all fit, and the reply holds the first of them in order.
pub on_request_reply :
    (capacity : ℕ) (cs : List Report) (g : Registration) (msg : ArmingCheckRequest)
    (h : HealthAndArmingChecks)
    → g.registered ≡ true
    → (r : ArmingCheckReply) × ((on_request capacity cs g msg h).1 ≡ some r)
      × (r.can_arm_and_run ≡ not (has_failure cs))
      × (r.events ≡ take capacity (failure_events cs))
      × (r.requirements ≡ fill_arming_check_reply h.mode_requirements)
      × (r.registration_id ≡ g.unregister_ext_component.arming_check_id)
      × (r.request_id ≡ msg.request_id)
unfolding on_request
on_request_reply capacity cs g msg h e =
    let r = initial_reply g msg h.mode_requirements in
    let (requirements, registration_id, request_id) = report_all_kept capacity cs r in
    (
      report_all capacity cs r,
      rw e,
      report_all-can_arm capacity cs r,
      report_all-events capacity cs r
          ∙ add_while_room-take capacity [] (failure_events cs) (omega arith),
      requirements,
      registration_id,
      request_id,
    )

-- The requests that came between two ticks of the watchdog.
pub on_requests :
    Registration → List ArmingCheckRequest → HealthAndArmingChecks → HealthAndArmingChecks
on_requests g [] h = h
on_requests g (msg ∷ msgs) h = on_requests g msgs (on_request 0 [] g msg h).0

-- Whether one of them knows this registration.
abbrev pub any_valid : Registration → List ArmingCheckRequest → Bool
any_valid g = any (λ (m : ArmingCheckRequest).
    bit_set m.valid_registrations_mask g.unregister_ext_component.arming_check_id)

first_done :
    (capacity : ℕ) (cs : List Report) (g : Registration) (msg : ArmingCheckRequest)
    (h : HealthAndArmingChecks)
    → g.registered ≡ true
    → (on_request capacity cs g msg h).0.first_request ≡ false
unfolding on_request
first_done capacity cs g msg h e = rw e

on_request_triggered :
    (capacity : ℕ) (cs : List Report) (g : Registration) (msg : ArmingCheckRequest)
    (h : HealthAndArmingChecks)
    → g.registered ≡ true
    → ((on_request capacity cs g msg h).0.check_triggered ≡ (
        (h.first_request
          || bit_set msg.valid_registrations_mask g.unregister_ext_component.arming_check_id)
        || h.check_triggered))
      × ((on_request capacity cs g msg h).0.shutdown_on_timeout ≡ h.shutdown_on_timeout)
unfolding on_request
on_request_triggered capacity cs g msg h e = (rw e, rw e)

-- Whether one of the requests counts: it knows this registration, or it is the first ever.
abbrev pub counts : Bool → Registration → List ArmingCheckRequest → Bool
counts first g msgs = (first && not (is_empty msgs)) || any_valid g msgs

on_requests-triggered :
    (g : Registration) (msgs : List ArmingCheckRequest) (h : HealthAndArmingChecks)
    → g.registered ≡ true
    → ((on_requests g msgs h).check_triggered
        ≡ (counts h.first_request g msgs || h.check_triggered))
      × ((on_requests g msgs h).shutdown_on_timeout ≡ h.shutdown_on_timeout)
unfolding on_requests
on_requests-triggered g [] h e = (ground arith, refl)
on_requests-triggered g (msg ∷ msgs) h e =
    let later = (on_request 0 [] g msg h).0 in
    let (t, s) = on_requests-triggered g msgs later e in
    let (t', s') = on_request_triggered 0 [] g msg h e in
    let done = first_done 0 [] g msg h e in (ground (arith, t, t', done), s ∙ s')

counts-false :
    (first : Bool) (g : Registration) (msgs : List ArmingCheckRequest)
    → (counts first g msgs ≡ false) ↔ ((any_valid g msgs ≡ false) × ((first ≡ false) ⊎ (msgs ≡ [])))
counts-false false g msgs = ((λ e. (e, inl refl)), (λ e. e.0))
counts-false true g [] = ((λ e. (refl, inr refl)), (λ e. refl))
counts-false true g (msg ∷ msgs) = ((λ e. cc), (λ e. elim e.1 [ inl q ↦ cc | inr q ↦ cc ]))

stops-counts :
    (g : Registration) (msgs : List ArmingCheckRequest) (h : HealthAndArmingChecks)
    → g.registered ≡ true
    → h.check_triggered ≡ false
    → h.shutdown_on_timeout ≡ true
    → (watchdog_timer_update g (on_requests g msgs h) ≡ none)
      ↔ (counts h.first_request g msgs ≡ false)
unfolding watchdog_timer_update
stops-counts g msgs h e c s =
    let (t, s') = on_requests-triggered g msgs h e in ((λ k. ground arith), (λ k. ground arith))

-- While the component is registered, the shutdown is enabled and no request has counted since the
-- last tick: whatever requests come, the next tick stops the process exactly if none of them knows
-- the registration, and moreover none came or the first request ever was answered before. (The
-- first request ever counts whatever registrations it knows.)
pub watchdog_stops_iff :
    (g : Registration) (msgs : List ArmingCheckRequest) (h : HealthAndArmingChecks)
    → g.registered ≡ true
    → h.check_triggered ≡ false
    → h.shutdown_on_timeout ≡ true
    → (watchdog_timer_update g (on_requests g msgs h) ≡ none)
      ↔ ((any_valid g msgs ≡ false) × ((h.first_request ≡ false) ⊎ (msgs ≡ [])))
watchdog_stops_iff g msgs h e c s =
    let (stops, counted) = stops-counts g msgs h e c s in
    let (unknown, all) = counts-false h.first_request g msgs in
    ((λ k. unknown (stops k)), (λ k. counted (all k)))

-- Once a component without a mode is registered, its first request counts, whatever registrations
-- the autopilot takes for valid.
pub on_request-do_register :
    (c : Px4Msgs) (name : List ℕ) (id : ℕ) (waits : ℕ → List (Wait ExtComponentReply))
    (g : Registration) (h : HealthAndArmingChecks) (capacity : ℕ) (cs : List Report)
    (msg : ArmingCheckRequest)
    → (do_register c name id waits g h).1.0.registered ≡ true
    → (on_request capacity cs
        (do_register c name id waits g h).1.0
        msg
        (do_register c name id waits g h).0).0.check_triggered
      ≡ true
unfolding on_request do_register
on_request-do_register c name id waits g h capacity cs msg e = rw e refl
