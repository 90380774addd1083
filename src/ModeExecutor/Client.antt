-- ===== src/ModeExecutor/Client.antt =====
-- User code as a script: what it is told and the executor's state decide the calls that it makes.
-- The calls may tell it more before they return, so the recursion has fuel; a deeper recursion
-- would exhaust the stack.
use px4_ros.Base.{ℕ, zero, suc, Bool, List, [], ◌∷◌, F32}
use px4_ros.Px4Msgs.{Px4Msgs}
use px4_ros.WaitLoop.{Wait}
use px4_ros.CommandSender.{VehicleCommand, VehicleCommandAck}
use px4_ros.Overrides
use px4_ros.ModeExecutor.{Executor, Told, Callback}
use px4_ros.ModeExecutor.Requests.{
  schedule_mode, takeoff, land, rtl, arm, disarm, wait_ready_to_arm, wait_until_disarmed,
}

-- The public calls.
pub data Request : Type 0 where
  schedules : ℕ → Callback → Bool → Request
  takes_off : Callback → F32 → F32 → Request
  lands returns : Callback → Request
  arms disarms : Callback → Bool → Request
  waits_ready waits_disarmed : Callback → Request
  overrides : Overrides.Request → Request

abbrev pub Script : Type 0
Script = Told → Executor → List Request

module _ (c : Px4Msgs) (acks : List VehicleCommand → ℕ → List (Wait VehicleCommandAck)) where
  unfoldable pub run_request : (Told → Executor → Executor) → Request → Executor → Executor
  run_request tell (schedules mode k forced) s = schedule_mode c acks tell mode k forced s
  run_request tell (takes_off k altitude heading) s = takeoff c acks tell k altitude heading s
  run_request tell (lands k) s = land c acks tell k s
  run_request tell (returns k) s = rtl c acks tell k s
  run_request tell (arms k run_preflight_checks) s = arm c acks tell k run_preflight_checks s
  run_request tell (disarms k forced) s = disarm c acks tell k forced s
  run_request tell (waits_ready k) s = wait_ready_to_arm c acks tell k s
  run_request tell (waits_disarmed k) s = wait_until_disarmed c acks tell k s
  run_request tell (overrides r) s = record s {
    config_overrides = Overrides.apply r s.config_overrides;
  }

  unfoldable pub run_requests : (Told → Executor → Executor) → List Request → Executor → Executor
  run_requests tell [] s = s
  run_requests tell (r ∷ rs) s = run_requests tell rs (run_request tell r s)

  unfoldable pub react : ℕ → Script → Told → Executor → Executor
  react zero script t s = s
  react (suc fuel) script t s = run_requests (react fuel script) (script t s) s
