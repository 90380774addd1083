-- ===== src/Vtol/Integrator.antt =====
-- The integrator of the back transition stays within its limits.
use px4_ros.Base.{
  ℕ, ◌≡◌, refl, inl, inr, Bool, false, Option, F32, lt32, Bool-cases, if_both, arith, List, [], ◌∷◌,
}
use px4_ros.Px4Msgs.{Px4Msgs}
use px4_ros.Vtol.{
  FloatOps, VtolConfig, Vtol, new, clamp, restart, pitch_setpoint, acceleration_setpoint,
  is_backtransition, is_fixed_wing, is_multicopter, transition, to_multicopter, to_fixedwing,
  on_vtol_vehicle_status, on_vehicle_local_position, State,
}
use px4_ros.Vtol.Runs.{
  Event, gets_status, gets_position, to_multicopter_called, to_fixedwing_called,
  acceleration_setpoint_called, step, run,
}

-- Neither below zero nor above the limit, as `<` on floats tells.
abbrev pub IsWithin : F32 → F32 → Type 0
IsWithin limit x = (lt32 x 0 ≡ false) × (lt32 limit x ≡ false)

zero-IsWithin : (limit : F32) → lt32 limit 0 ≡ false → IsWithin limit 0
unfolding lt32
zero-IsWithin limit h = (refl, h)

lt32_irreflexive : (x : F32) → lt32 x x ≡ false
unfolding lt32
lt32_irreflexive x = ground arith

clamp-IsWithin : (limit x : F32) → lt32 limit 0 ≡ false → IsWithin limit (clamp x 0 limit)
unfolding clamp
clamp-IsWithin limit x h = elim (Bool-cases (lt32 x 0)) [
  | inl low ↦ rw low (zero-IsWithin limit h)
  | inr above ↦ elim (Bool-cases (lt32 limit x)) [
    | inl high ↦ rw (above, high) (h, lt32_irreflexive limit)
    | inr below ↦ rw (above, below) (above, below)
  ]
]

module _ (c : Px4Msgs) (f : FloatOps) (config : VtolConfig) where
  -- The integrator of a state is within the limits of the configuration.
  abbrev pub IsLimited : Vtol → Type 0
  IsLimited v = IsWithin config.deceleration_integrator_limit v.decel_error_bt_int

  restart-IsLimited :
      (dt : F32) (v : Vtol)
      → lt32 config.deceleration_integrator_limit 0 ≡ false
      → IsLimited v
      → IsLimited (restart dt v).1
  unfolding restart
  restart-IsLimited dt v h w =
      if_both (λ (r : F32 × Vtol). IsLimited r.1) (lt32 0x40000000 dt)
        (0, record v { decel_error_bt_int = 0 }) (dt, v)
        (zero-IsWithin config.deceleration_integrator_limit h) w

  transition-IsLimited :
      (from : State → Bool) (target now : ℕ) (v : Vtol)
      → IsLimited v
      → IsLimited (transition c config from target now v).1
  unfolding transition
  transition-IsLimited from target now v w =
      if_both (λ (r : Bool × Vtol). IsLimited r.1) _ _ _ (if_both IsLimited _ _ _ w w) w

  pitch_setpoint-IsLimited :
      (d : Option F32) (now : ℕ) (v : Vtol)
      → lt32 config.deceleration_integrator_limit 0 ≡ false
      → IsLimited v
      → let (pitch, v') = pitch_setpoint f config d now v in
        IsWithin config.deceleration_integrator_limit pitch × IsLimited v'
  unfolding pitch_setpoint
  pitch_setpoint-IsLimited d now v h w =
      if_both
        (λ (r : F32 × Vtol). IsWithin config.deceleration_integrator_limit r.0 × IsLimited r.1) _ _
        _ (kept, kept)
        (
          clamp-IsWithin config.deceleration_integrator_limit _ h,
          clamp-IsWithin config.deceleration_integrator_limit _ h,
        )
    where
      kept :
          IsLimited
            (restart
              (f.seconds_between now v.last_pitch_integrator_update)
              (record v { last_pitch_integrator_update = now })).1
      kept = restart-IsLimited _ _ h w

  step-IsLimited :
      (e : Event) (v : Vtol)
      → lt32 config.deceleration_integrator_limit 0 ≡ false
      → IsLimited v
      → IsLimited (step c f config e v)
  unfolding step on_vtol_vehicle_status on_vehicle_local_position to_multicopter to_fixedwing
      transition acceleration_setpoint
  step-IsLimited (gets_status now state) v h w = w
  step-IsLimited (gets_position heading ax ay) v h w = w
  step-IsLimited (to_multicopter_called now) v h w =
      transition-IsLimited is_fixed_wing c.vehicle_vtol_state_mc now v w
  step-IsLimited (to_fixedwing_called now) v h w =
      transition-IsLimited is_multicopter c.vehicle_vtol_state_fw now v w
  step-IsLimited (acceleration_setpoint_called d now) v h w =
      if_both (λ (r : F32 × Vtol). IsLimited r.1) (is_backtransition v.current_state)
        (pitch_setpoint f config d now v) (0, v) (pitch_setpoint-IsLimited d now v h w).1 w

  run-IsLimited :
      (es : List Event) (v : Vtol)
      → lt32 config.deceleration_integrator_limit 0 ≡ false
      → IsLimited v
      → IsLimited (run c f config es v)
  unfolding run
  run-IsLimited [] v h w = w
  run-IsLimited (e ∷ es) v h w = run-IsLimited es (step c f config e v) h (step-IsLimited e v h w)

-- If the limit of the integrator is not below zero: after whatever messages and calls, the pitch
-- setpoint during a back transition is neither below zero nor above the limit, for every float
-- arithmetic.
pub pitch_setpoint_bounds :
    (c : Px4Msgs) (f : FloatOps) (config : VtolConfig) (es : List Event) (start now : ℕ)
    (d : Option F32)
    → lt32 config.deceleration_integrator_limit 0 ≡ false
    → IsWithin config.deceleration_integrator_limit
        (pitch_setpoint f config d now (run c f config es (new start))).0
unfolding new
pitch_setpoint_bounds c f config es start now d h =
    (pitch_setpoint-IsLimited c f config d now _ h (
      run-IsLimited c f config es (new start) h
        (zero-IsWithin config.deceleration_integrator_limit h))).0
