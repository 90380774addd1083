-- ===== src/ModeExecutor/Balance.antt =====
-- The balance of callbacks through the calls of user code that hand in a callback.
use px4_ros.Base.{ℕ, ◌≡◌, Bool, false, List, ◌==◌, arith}
use px4_ros.Px4Msgs.{Px4Msgs}
use px4_ros.WaitLoop.{Wait}
use px4_ros.CommandSender.{success, rejected, VehicleCommand, VehicleCommandAck}
use px4_ros.Registration.{mode_id_invalid}
use px4_ros.ModeExecutor.{
  Executor, Told, Callback, until_armed, until_disarmed, until_ready_to_arm, cancel_scheduled,
  send_command,
}
use px4_ros.ModeExecutor.Requests.{
  request_callback, schedule_command, arm, disarm, wait_ready_to_arm, wait_until_disarmed,
}
use px4_ros.ModeExecutor.Callbacks.{
  BalancedBut, if-BalancedBut, Fair, also, call_back-BalancedBut, cancel_scheduled-BalancedBut,
  after_command-BalancedBut, after_arming-BalancedBut, activate_wait-BalancedBut,
}

request_callback-BalancedBut :
    (held : Callback → ℕ) (k : Callback) (s : Executor)
    → BalancedBut held s
    → BalancedBut (also k held) (request_callback k s)
request_callback-BalancedBut held k s h = λ j a. omega (arith, h j a)

module _ (c : Px4Msgs) (acks : List VehicleCommand → ℕ → List (Wait VehicleCommandAck))
    (tell : Told → Executor → Executor) (fair : Fair tell) (held : Callback → ℕ) where
  pub schedule_command-BalancedBut :
      (mode : ℕ) (cmd : Executor → VehicleCommand) (k : Callback) (forced : Bool) (s : Executor)
      → (mode == mode_id_invalid) ≡ false
      → BalancedBut held s
      → BalancedBut held (schedule_command c acks tell mode cmd k forced s)
  unfolding schedule_command send_command
  schedule_command-BalancedBut mode cmd k forced s v h =
      let a = request_callback k s in
      let owed = request_callback-BalancedBut held k s h in
      let b = cancel_scheduled tell a in
      if-BalancedBut held _ _ _ (call_back-BalancedBut tell fair held k rejected a owed) (
        after_command-BalancedBut tell fair held mode k _ (send_command c acks (cmd b) b).1 v
          (cancel_scheduled-BalancedBut tell fair (also k held) a owed))

  pub arm-BalancedBut :
      (k : Callback) (run_preflight_checks : Bool) (s : Executor)
      → BalancedBut held s
      → BalancedBut held (arm c acks tell k run_preflight_checks s)
  unfolding arm send_command
  arm-BalancedBut k run_preflight_checks s h =
      let a = request_callback k s in
      let owed = request_callback-BalancedBut held k s h in
      if-BalancedBut held _ _ _ (call_back-BalancedBut tell fair held k success a owed)
        (after_arming-BalancedBut tell fair held until_armed k _ _ owed)

  pub disarm-BalancedBut :
      (k : Callback) (forced : Bool) (s : Executor)
      → BalancedBut held s
      → BalancedBut held (disarm c acks tell k forced s)
  unfolding disarm send_command
  disarm-BalancedBut k forced s h =
      let a = request_callback k s in
      let owed = request_callback-BalancedBut held k s h in
      if-BalancedBut held _ _ _ (call_back-BalancedBut tell fair held k success a owed)
        (after_arming-BalancedBut tell fair held until_disarmed k _ _ owed)

  pub wait_ready_to_arm-BalancedBut :
      (k : Callback) (s : Executor)
      → BalancedBut held s
      → BalancedBut held (wait_ready_to_arm c acks tell k s)
  unfolding wait_ready_to_arm
  wait_ready_to_arm-BalancedBut k s h =
      let a = request_callback k s in
      let owed = request_callback-BalancedBut held k s h in
      if-BalancedBut held _ _ _ (call_back-BalancedBut tell fair held k success a owed)
        (activate_wait-BalancedBut held until_ready_to_arm k a owed)

  pub wait_until_disarmed-BalancedBut :
      (k : Callback) (s : Executor)
      → BalancedBut held s
      → BalancedBut held (wait_until_disarmed c acks tell k s)
  unfolding wait_until_disarmed
  wait_until_disarmed-BalancedBut k s h =
      let a = request_callback k s in
      let owed = request_callback-BalancedBut held k s h in
      if-BalancedBut held _ _ _ (call_back-BalancedBut tell fair held k success a owed)
        (activate_wait-BalancedBut held until_disarmed k a owed)
