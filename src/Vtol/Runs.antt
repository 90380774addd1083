-- ===== src/Vtol/Runs.antt =====
-- What can happen to a `VTOL`: the messages that it gets and the calls of its methods, in any order
-- and at any times.
use px4_ros.Base.{ℕ, List, [], ◌∷◌, Option, F32}
use px4_ros.Px4Msgs.{Px4Msgs}
use px4_ros.Vtol.{
  FloatOps, VtolConfig, Vtol, acceleration_setpoint, to_multicopter, to_fixedwing,
  on_vtol_vehicle_status, on_vehicle_local_position,
}

pub data Event : Type 0 where
  gets_status : ℕ → ℕ → Event
  gets_position : F32 → F32 → F32 → Event
  to_multicopter_called to_fixedwing_called : ℕ → Event
  acceleration_setpoint_called : Option F32 → ℕ → Event

module _ (c : Px4Msgs) (f : FloatOps) (config : VtolConfig) where
  unfoldable pub step : Event → Vtol → Vtol
  step (gets_status now state) v = on_vtol_vehicle_status c now state v
  step (gets_position heading ax ay) v = on_vehicle_local_position heading ax ay v
  step (to_multicopter_called now) v = (to_multicopter c config now v).1
  step (to_fixedwing_called now) v = (to_fixedwing c config now v).1
  step (acceleration_setpoint_called d now) v = (acceleration_setpoint f config d now v).1

  unfoldable pub run : List Event → Vtol → Vtol
  run [] v = v
  run (e ∷ es) v = run es (step e v)
