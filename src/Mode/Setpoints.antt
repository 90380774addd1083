-- ===== src/Mode/Setpoints.antt =====
-- One setpoint type is active at a time, and the mode's requirements cover all of them.
use px4_ros.Base.{
  ℕ, ◌≡◌, refl, ◌∙◌, Bool, true, false, not, ◌&&◌, ◌||◌, List, [], ◌∷◌, ◌==◌, All, arith,
  Bool-cases, inl, inr,
}
use px4_ros.Requirements.{RequirementFlags, Configuration}
use px4_ros.Mode.{
  Mode, Setpoint, select, selected, is_inactive_type, setpoint_update, publish_all, emit, id,
  control_mode, fill_control_mode,
}
use px4_ros.Mode.Registering.{require, require_all, relax, update_mode_requirements_from_setpoints}

-- Of these types those with the address `object` are active, and no other.
abbrev pub OnlyActive : ℕ → List Setpoint → Type 0
OnlyActive object = All (λ (t : Setpoint). t.active ≡ (t.object == object))

unfoldable pub is_registered : ℕ → List Setpoint → Bool
is_registered object [] = false
is_registered object (t ∷ ts) = t.object == object || is_registered object ts

select-OnlyActive : (object : ℕ) (ts : List Setpoint) → OnlyActive object (select object ts)
unfolding select
select-OnlyActive object [] = tt
select-OnlyActive object (t ∷ ts) = (refl, select-OnlyActive object ts)

-- A registered type that is not inactive is the active one.
active_is_only :
    (object other : ℕ) (ts : List Setpoint)
    → OnlyActive other ts
    → is_registered object ts ≡ true
    → is_inactive_type object ts ≡ false
    → object ≡ other
unfolding is_registered is_inactive_type
active_is_only object other [] h r e = cc
active_is_only object other (t ∷ ts) h r e = ground (arith, h.0, active_is_only object other ts h.1)

publish_all-types :
    (cs : List Configuration) (m : Mode) → (publish_all cs m).setpoint_types ≡ m.setpoint_types
publish_all-types [] m = refl
publish_all-types (c ∷ cs) m =
    publish_all-types cs (emit (control_mode (fill_control_mode (id m) c)) m)

-- If one setpoint type is the only active one, then after an update of a registered type that type
-- is active and no other is.
pub setpoint_update-OnlyActive :
    (object other : ℕ) (m : Mode)
    → OnlyActive other m.setpoint_types
    → is_registered object m.setpoint_types ≡ true
    → OnlyActive object (setpoint_update object m).setpoint_types
unfolding setpoint_update
setpoint_update-OnlyActive object other m h r =
    elim (Bool-cases (is_inactive_type object m.setpoint_types)) [
      | inl e ↦
          rw
            (
              e,
              publish_all-types (selected object m.setpoint_types)
                  (record m { setpoint_types = select object m.setpoint_types }),
            )
            (select-OnlyActive object m.setpoint_types)
      | inr e ↦ rw (e, active_is_only object other m.setpoint_types h r e) h
    ]

-- A requirement that some setpoint type has.
abbrev pub needs : (Configuration → Bool) → List Setpoint → Bool
needs f [] = false
needs f (t ∷ ts) = f t.configuration || needs f ts

abbrev pub needs_position : Configuration → Bool
needs_position c = not c.local_position_is_optional && (c.velocity_enabled || c.position_enabled)

abbrev pub needs_altitude : Configuration → Bool
needs_altitude c = c.altitude_enabled || c.climb_rate_enabled

-- The flags `q` are those of `r`, with the needs of some types added.
record Adds (needs_of : (Configuration → Bool) → Bool) (r q : RequirementFlags) : Type 0 where
  angular_velocity : q.angular_velocity ≡ (r.angular_velocity || needs_of (λ c. c.rates_enabled))
  attitude : q.attitude ≡ (r.attitude || needs_of (λ c. c.attitude_enabled))
  local_alt : q.local_alt ≡ (r.local_alt || needs_of needs_altitude)
  local_position : q.local_position ≡ (r.local_position || needs_of needs_position)
  manual_control : q.manual_control ≡ r.manual_control
  local_position_relaxed : q.local_position_relaxed ≡ r.local_position_relaxed

require-Adds : (c : Configuration) (r : RequirementFlags) → Adds (λ f. f c) r (require c r)
unfolding require
require-Adds c r = record {
  angular_velocity = ground arith;
  attitude = ground arith;
  local_alt = ground arith;
  local_position = ground arith;
  manual_control = ground arith;
  local_position_relaxed = ground arith;
}

or_regroup : (a b c d : Bool) {e : Bool} → d ≡ (a || b) → e ≡ (d || c) → e ≡ (a || (b || c))
or_regroup a b c d h k = ground arith

or_false : (a : Bool) → a ≡ (a || false)
or_false a = ground arith

require_all-Adds :
    (ts : List Setpoint) (r : RequirementFlags) → Adds (λ f. needs f ts) r (require_all ts r)
unfolding require_all
require_all-Adds [] r = record {
  angular_velocity = or_false _;
  attitude = or_false _;
  local_alt = or_false _;
  local_position = or_false _;
  manual_control = refl;
  local_position_relaxed = refl;
}
require_all-Adds (t ∷ ts) r =
    let one = require-Adds t.configuration r in
    let rest = require_all-Adds ts (require t.configuration r) in
    record {
      angular_velocity = or_regroup _ _ _ _ one.angular_velocity rest.angular_velocity;
      attitude = or_regroup _ _ _ _ one.attitude rest.attitude;
      local_alt = or_regroup _ _ _ _ one.local_alt rest.local_alt;
      local_position = or_regroup _ _ _ _ one.local_position rest.local_position;
      manual_control = rest.manual_control ∙ one.manual_control;
      local_position_relaxed = rest.local_position_relaxed ∙ one.local_position_relaxed;
    }

relax_lem :
    (r : RequirementFlags)
    → ((relax r).local_position ≡ (r.local_position && not r.manual_control))
      × ((relax r).local_position_relaxed
          ≡ (r.local_position_relaxed || (r.local_position && r.manual_control)))
      × ((relax r).angular_velocity ≡ r.angular_velocity)
      × ((relax r).attitude ≡ r.attitude)
      × ((relax r).local_alt ≡ r.local_alt)
unfolding relax
relax_lem r = (ground arith, ground arith, ground arith, ground arith, ground arith)

-- A mode requires an estimate exactly if it did before or one of its setpoint types needs it; a
-- local position that a manual mode needs is required in the relaxed form, and in the strict form
-- by no manual mode.
pub update_mode_requirements_complete :
    (m : Mode)
    → let q = (update_mode_requirements_from_setpoints m).requirements in
      let r = m.requirements in
      let ts = m.setpoint_types in
      (q.angular_velocity ≡ (r.angular_velocity || needs (λ c. c.rates_enabled) ts))
      × (q.attitude ≡ (r.attitude || needs (λ c. c.attitude_enabled) ts))
      × (q.local_alt ≡ (r.local_alt || needs needs_altitude ts))
      × (q.local_position ≡ ((r.local_position || needs needs_position ts) && not r.manual_control))
      × (q.local_position_relaxed ≡ (
          r.local_position_relaxed
          || ((r.local_position || needs needs_position ts) && r.manual_control)))
unfolding update_mode_requirements_from_setpoints
update_mode_requirements_complete m =
    let a = require_all-Adds m.setpoint_types m.requirements in
    let (p, x, v, t, l) = relax_lem (require_all m.setpoint_types m.requirements) in
    (
      v ∙ a.angular_velocity,
      t ∙ a.attitude,
      l ∙ a.local_alt,
      p ∙ rw (a.local_position, a.manual_control),
      x ∙ rw (a.local_position, a.manual_control, a.local_position_relaxed),
    )
