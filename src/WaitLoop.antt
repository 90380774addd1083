-- ===== src/WaitLoop.antt =====
-- The request loop that the blocking calls share (registration.cpp, vehicle_command_sender.cpp,
-- message_compatibility_check.cpp): publish, then wait for a matching message until a deadline,
-- and try again a bounded number of times. The environment is the list of what the wait set
-- returned before the deadline, one list for each attempt.
pub mod Laws
use px4_ros.Base.{ℕ, zero, suc, List, [], ◌∷◌, Option, none, some}

-- One return of `wait_set.wait`: a message was taken, none could be taken, or it timed out.
pub data Wait {ℓ} (M : Type ℓ) : Type ℓ where
  taken : M → Wait M
  not_taken : Wait M
  timed_out : Wait M

module _ {ℓ κ} {M : Type ℓ} {R : Type κ} (handle : M → Option R) where
  unfoldable pub on_message : Wait M → Option R
  on_message (taken m) = handle m
  on_message not_taken = none
  on_message timed_out = none

  -- The inner loop, `while (!got_reply)`: the list ends where the deadline passes.
  unfoldable pub await : List (Wait M) → Option R
  unfolding on_message
  await [] = none
  await (w ∷ ws) = elim (on_message w) [ some r ↦ some r | none ↦ await ws ]

  -- The outer loop over the attempts that are left. It returns the reply, and how many requests
  -- were published.
  unfoldable pub request : ℕ → ℕ → (ℕ → List (Wait M)) → Option R × ℕ
  request zero attempt waits = (none, attempt)
  request (suc left) attempt waits = elim (await (waits attempt)) [
    | some r ↦ (some r, suc attempt)
    | none ↦ request left (suc attempt) waits
  ]
