-- ===== src/Vtol/Spacing.antt =====
-- The commands for transitions are more than 150 ms apart.
use px4_ros.Base.{ℕ, ◌+◌, ◌<◌, ◌≡◌, refl, Bool, List, [], ◌∷◌, Option, F32, arith}
use px4_ros.Px4Msgs.{Px4Msgs}
use px4_ros.Vtol.{
  FloatOps, VtolConfig, Vtol, State, TransitionCommand, new, restart, pitch_setpoint,
  acceleration_setpoint, is_fixed_wing, is_multicopter, min_command_interval, transition,
  to_multicopter, to_fixedwing, on_vtol_vehicle_status, on_vehicle_local_position,
}
use px4_ros.Vtol.Runs.{
  Event, gets_status, gets_position, to_multicopter_called, to_fixedwing_called,
  acceleration_setpoint_called, step, run,
}

-- The time of the last command, or that of the start.
abbrev pub last_time : ℕ → List (ℕ × TransitionCommand) → ℕ
last_time start [] = start
last_time start ((t, cmd) ∷ rest) = t

-- Every command is more than the interval after the one before and after the start.
abbrev pub IsSpaced : ℕ → List (ℕ × TransitionCommand) → Type 0
IsSpaced start [] = Unit
IsSpaced start ((t, cmd) ∷ rest) =
    (last_time start rest + min_command_interval < t) × IsSpaced start rest

-- The state knows the last command.
record Inv (start : ℕ) (v : Vtol) : Type 0 where
  pub known : v.last_command_sent ≡ last_time start v.published
  pub spaced : IsSpaced start v.published

module _ (c : Px4Msgs) (f : FloatOps) (config : VtolConfig) (start : ℕ) where
  transition-Inv :
      (from : State → Bool) (target now : ℕ) (v : Vtol)
      → Inv start v
      → Inv start (transition c config from target now v).1
  unfolding transition
  transition-Inv from target now v i = ground (arith, i.known, i.spaced)

  acceleration_setpoint-Inv :
      (d : Option F32) (now : ℕ) (v : Vtol)
      → Inv start v
      → Inv start (acceleration_setpoint f config d now v).1
  unfolding acceleration_setpoint pitch_setpoint restart
  acceleration_setpoint-Inv d now v i = ground (arith, i.known, i.spaced)

  step-Inv : (e : Event) (v : Vtol) → Inv start v → Inv start (step c f config e v)
  unfolding step on_vtol_vehicle_status on_vehicle_local_position to_multicopter to_fixedwing
  step-Inv (gets_status now state) v i = record { known = i.known; spaced = i.spaced }
  step-Inv (gets_position heading ax ay) v i = record { known = i.known; spaced = i.spaced }
  step-Inv (to_multicopter_called now) v i =
      transition-Inv is_fixed_wing c.vehicle_vtol_state_mc now v i
  step-Inv (to_fixedwing_called now) v i =
      transition-Inv is_multicopter c.vehicle_vtol_state_fw now v i
  step-Inv (acceleration_setpoint_called d now) v i = acceleration_setpoint-Inv d now v i

  run-Inv : (es : List Event) (v : Vtol) → Inv start v → Inv start (run c f config es v)
  unfolding run
  run-Inv [] v i = i
  run-Inv (e ∷ es) v i = run-Inv es (step c f config e v) (step-Inv e v i)

-- Whatever messages a VTOL gets and whatever methods are called in whatever order: every
-- transition command is published more than 150 ms after the one before, and after the start.
pub run-IsSpaced :
    (c : Px4Msgs) (f : FloatOps) (config : VtolConfig) (es : List Event) (start : ℕ)
    → IsSpaced start (run c f config es (new start)).published
unfolding new
run-IsSpaced c f config es start =
    (run-Inv c f config start es (new start) (record { known = refl; spaced = tt })).spaced
