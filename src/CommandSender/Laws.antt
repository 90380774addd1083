-- ===== src/CommandSender/Laws.antt =====
-- What the result of a command says.
use px4_ros.Base.{
  ℕ, suc, ◌<◌, ◌≡◌, true, List, ◌∷◌, ◌++◌, some, arith, ap, ◌∙◌, inl, inr, Option-cases, All, ◌==◌,
  if◌then◌else◌,
}
use px4_ros.Px4Msgs.{Px4Msgs}
use px4_ros.WaitLoop.{Wait, taken, request}
use px4_ros.WaitLoop.Laws.{Ignored, request_first, request-none, request_taken}
use px4_ros.CommandSender.{
  Result, success, rejected, timeout, VehicleCommand, VehicleCommandAck, acknowledges, on_ack,
  max_commands, send_command_sync, to_result, of_result,
}

pub to_result-of_result : (n : ℕ) → of_result (to_result n) ≡ n
unfolding to_result of_result
to_result-of_result n = ground arith

-- An acknowledgement of another command, or to another component.
abbrev pub Foreign : Px4Msgs → VehicleCommand → Wait VehicleCommandAck → Type 0
Foreign c cmd = Ignored (on_ack c cmd)

-- The verdict of an acknowledgement.
abbrev pub verdict : Px4Msgs → VehicleCommandAck → Result
verdict c ack = if ack.result == c.vehicle_cmd_result_accepted then success else rejected

on_ack_match :
    (c : Px4Msgs) (cmd : VehicleCommand) (ack : VehicleCommandAck)
    → acknowledges cmd ack ≡ true
    → on_ack c cmd ack ≡ some (verdict c ack)
unfolding on_ack
on_ack_match c cmd ack h = rw h

on_ack_accepted :
    (c : Px4Msgs) (cmd : VehicleCommand) (ack : VehicleCommandAck)
    → on_ack c cmd ack ≡ some success
    → (acknowledges cmd ack ≡ true) × (ack.result ≡ c.vehicle_cmd_result_accepted)
unfolding on_ack
on_ack_accepted c cmd ack h = ground arith

acknowledges-fields :
    (cmd : VehicleCommand) (ack : VehicleCommandAck)
    → acknowledges cmd ack ≡ true
    → (ack.command ≡ cmd.command) × (ack.target_component ≡ cmd.source_component)
unfolding acknowledges
acknowledges-fields cmd ack h = ground arith

module _ (c : Px4Msgs) (cmd : VehicleCommand) (waits : ℕ → List (Wait VehicleCommandAck)) where
  -- The first acknowledgement of the command to this component decides the result, in whichever of
  -- the three attempts it comes and whatever foreign ones came before, and ends the sending.
  pub send_command_sync_acknowledged :
      (k : ℕ) (before after : List (Wait VehicleCommandAck)) (ack : VehicleCommandAck)
      → k < max_commands
      → ((i : ℕ) → i < k → All (Foreign c cmd) (waits i))
      → waits k ≡ before ++ taken ack ∷ after
      → All (Foreign c cmd) before
      → acknowledges cmd ack ≡ true
      → send_command_sync c cmd waits ≡ (verdict c ack, suc k)
  unfolding send_command_sync
  send_command_sync_acknowledged k before after ack hk earlier e foreign m = rw (
      request_first (on_ack c cmd) k 3 waits before after ack (verdict c ack) hk earlier e foreign
        (on_ack_match c cmd ack m))

  -- If no acknowledgement ever matches, the command is sent three times and the result is a
  -- timeout.
  pub send_command_sync_timeout :
      ((i : ℕ) → All (Foreign c cmd) (waits i))
      → send_command_sync c cmd waits ≡ (timeout, max_commands)
  unfolding send_command_sync
  send_command_sync_timeout foreign = rw (request-none (on_ack c cmd) 3 waits foreign)

  -- If sending a command reports success, then in one of the three attempts an acknowledgement was
  -- taken that names the command, is for this component and says that the command was accepted.
  pub send_command_sync_sound :
      (send_command_sync c cmd waits).0 ≡ success
      → (i : ℕ) × (ack : VehicleCommandAck) × (before : List (Wait VehicleCommandAck))
        × (after : List (Wait VehicleCommandAck)) × (i < max_commands)
        × (waits i ≡ before ++ taken ack ∷ after)
        × (ack.command ≡ cmd.command)
        × (ack.target_component ≡ cmd.source_component)
        × (ack.result ≡ c.vehicle_cmd_result_accepted)
  unfolding send_command_sync
  send_command_sync_sound h = elim (Option-cases (request (on_ack c cmd) max_commands 0 waits).0) [
    | inl e ↦ let q : timeout ≡ success = rw e at h in cc
    | inr (r, e) ↦
        let (i, ack, before, after, attempt, place, taking) =
          request_taken (on_ack c cmd) max_commands 0 waits r e in
        let q : r ≡ success = rw e at h in
        let (matches, accepted) = on_ack_accepted c cmd ack (taking ∙ ap some q) in
        let (command, component) = acknowledges-fields cmd ack matches in
        (i, ack, before, after, omega arith, place, command, component, accepted)
  ]
