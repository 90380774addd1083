-- ===== src/Witnesses/Executors.antt =====
-- An executor whose user code arms the vehicle when it is activated and then schedules a takeoff.
use px4_ros.Base.{true, pos, ◌↔◌, ◌⊎◌, ℕ, ◌≡◌, refl, false, List, [], ◌∷◌, All, arith}
use px4_ros.Px4Msgs.{VehicleStatus}
use px4_ros.ModeExecutor.Registering.{
  defer_failsafes_sync, IsNeedless, Defers, defer_failsafes_sync_iff,
}
use px4_ros.WaitLoop.{Wait, taken}
use px4_ros.CommandSender.{success, VehicleCommand, VehicleCommandAck}
use px4_ros.ModeExecutor.{
  Executor, Told, on_activate, on_completed, on_deactivate, on_failsafe_deferred,
}
use px4_ros.ModeExecutor.Client.{Script, takes_off, schedules}
use px4_ros.ModeExecutor.Callbacks.{IsBalanced}
use px4_ros.ModeExecutor.Runs.{
  HasModes, IsValid, Event, gets_status, gets_completed, run_events, run_events-IsBalanced,
}
use px4_ros.Witnesses.Data.{px4, armed_status, idle_executor}
use px4_ros.Witnesses.Modes.{eager}

-- Every command is acknowledged as accepted.
abbrev acks : List VehicleCommand → ℕ → List (Wait VehicleCommandAck)
acks sent n =
    taken (record { command = 100001; result = 0; target_component = 1001 })
    ∷ taken (record { command = 22; result = 0; target_component = 1001 })
    ∷ []

abbrev script : Script
script on_activate s = takes_off 70 0 0 ∷ []
script (on_completed k success) s = schedules 23 71 false ∷ []
script _ s = []

script-IsValid : (t : Told) (s : Executor) → All IsValid (script t s)
script-IsValid on_activate s = (tt, tt)
script-IsValid (on_completed k success) s = (refl, tt)
script-IsValid (on_completed k _) s = tt
script-IsValid on_failsafe_deferred s = tt
script-IsValid (on_deactivate reason) s = tt

px4-HasModes : HasModes px4
px4-HasModes = record { takeoff = refl; land = refl; rtl = refl }

abbrev events : List Event
events = gets_status 5 armed_status ∷ gets_completed 17 0 ∷ []

idle_executor-IsBalanced : IsBalanced idle_executor
idle_executor-IsBalanced k h = omega arith

run_events-IsBalanced_example : IsBalanced (run_events px4 acks eager 4 script events idle_executor)
run_events-IsBalanced_example =
    run_events-IsBalanced px4 acks eager 4 script px4-HasModes script-IsValid events idle_executor
      (tt, (tt, tt)) idle_executor-IsBalanced

-- In charge, with failsafes not deferred yet; the second status says that they are.
abbrev in_charge : Executor
in_charge = record idle_executor { is_in_charge = true }

abbrev statuses : List (Wait VehicleStatus)
statuses = taken armed_status ∷ taken (record armed_status { failsafe_defer_state = 1 }) ∷ []

defer_failsafes_sync_iff_example :
    ((defer_failsafes_sync px4 true (pos 5) statuses in_charge).0 ≡ true)
    ↔ (IsNeedless px4 true in_charge ⊎ Defers px4 statuses)
defer_failsafes_sync_iff_example = defer_failsafes_sync_iff px4 true (pos 5) statuses in_charge
