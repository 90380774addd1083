-- ===== src/Vtol.antt =====
-- px4_ros2_cpp/src/control/vtol.cpp: transitions between multicopter and fixed wing. Times are
-- nanoseconds of the node's clock. `now - last < d` is written `now < last + d`, since the
-- difference may be negative. Floats are bit patterns; their arithmetic, the conversion of a
-- duration to seconds and the trigonometric functions are arguments.
pub mod Runs
pub mod Spacing
pub mod Integrator
use px4_ros.Base.{
  ℕ, ◌+◌, ◌*◌, ◌^◌, Bool, true, false, not, ◌&&◌, ◌||◌, List, [], ◌∷◌, Option, none, some, ltb,
  ◌==◌, if◌then◌else◌, F32, nan32, is_nan32, lt32, value_or,
}
use px4_ros.Px4Msgs.{Px4Msgs}

pub record FloatOps : Type 0 where
  pub add : F32 → F32 → F32
  pub sub : F32 → F32 → F32
  pub mul : F32 → F32 → F32
  pub neg : F32 → F32
  pub cos : F32 → F32
  pub sin : F32 → F32
  pub tan : F32 → F32
  -- `(now - last).seconds()`
  pub seconds_between : ℕ → ℕ → F32

-- `kConstantsOneG`, 2.f
abbrev one_g : F32
one_g = 0x411ce80a

abbrev two : F32
two = 0x40000000

-- The timeout is in seconds.
pub record VtolConfig : Type 0 where
  pub back_transition_deceleration : F32
  pub back_transition_deceleration_setpoint_to_pitch_i : F32
  pub deceleration_integrator_limit : F32
  pub status_timeout : ℕ

-- The values of a configuration that is not changed: 2, 0.1 and 0.3, and five seconds.
abbrev pub default_config : VtolConfig
default_config = record {
  back_transition_deceleration = 0x40000000;
  back_transition_deceleration_setpoint_to_pitch_i = 0x3dcccccd;
  deceleration_integrator_limit = 0x3e99999a;
  status_timeout = 5;
}

-- The setters of the configuration, which chain.
unfoldable pub with_back_transition_deceleration : F32 → VtolConfig → VtolConfig
with_back_transition_deceleration x config = record config { back_transition_deceleration = x }

unfoldable pub with_deceleration_integrator_limit : F32 → VtolConfig → VtolConfig
with_deceleration_integrator_limit x config = record config { deceleration_integrator_limit = x }

unfoldable pub with_back_transition_deceleration_i_gain : F32 → VtolConfig → VtolConfig
with_back_transition_deceleration_i_gain x config = record config {
  back_transition_deceleration_setpoint_to_pitch_i = x;
}

unfoldable pub with_status_timeout : ℕ → VtolConfig → VtolConfig
with_status_timeout timeout config = record config { status_timeout = timeout }

pub data State : Type 0 where
  undefined transition_to_fixed_wing transition_to_multicopter multicopter fixed_wing : State

pub record TransitionCommand : Type 0 where
  pub command : ℕ
  -- A vehicle state, which is converted to a float.
  pub param1 : ℕ
  pub param2 : F32
  pub target_system : ℕ
  pub target_component : ℕ

-- The commands that were published, the latest first, each with the time of its call.
pub record Vtol : Type 0 where
  pub last_command_sent : ℕ
  pub last_vtol_vehicle_status_received : ℕ
  pub last_pitch_integrator_update : ℕ
  pub vehicle_heading : F32
  pub decel_error_bt_int : F32
  pub vehicle_acceleration_xy : F32 × F32
  pub current_state : State
  pub published : List (ℕ × TransitionCommand)

unfoldable pub new : ℕ → Vtol
new now = record {
  last_command_sent = now;
  last_vtol_vehicle_status_received = 0;
  last_pitch_integrator_update = 0;
  vehicle_heading = nan32;
  decel_error_bt_int = 0;
  vehicle_acceleration_xy = (nan32, nan32);
  current_state = undefined;
  published = [];
}

module _ (c : Px4Msgs) where
  unfoldable pub state_of_status : ℕ → State
  state_of_status vehicle_vtol_state =
      if vehicle_vtol_state == c.vehicle_vtol_state_transition_to_fw
      then transition_to_fixed_wing
      else if vehicle_vtol_state == c.vehicle_vtol_state_transition_to_mc
      then transition_to_multicopter
      else if vehicle_vtol_state == c.vehicle_vtol_state_mc
      then multicopter
      else if vehicle_vtol_state == c.vehicle_vtol_state_fw
      then fixed_wing
      else undefined

  -- The callbacks of the two subscriptions.
  unfoldable pub on_vtol_vehicle_status : ℕ → ℕ → Vtol → Vtol
  unfolding state_of_status
  on_vtol_vehicle_status now vehicle_vtol_state v = record v {
    last_vtol_vehicle_status_received = now;
    current_state = state_of_status vehicle_vtol_state;
  }

unfoldable pub on_vehicle_local_position : F32 → F32 → F32 → Vtol → Vtol
on_vehicle_local_position heading ax ay v = record v {
  vehicle_heading = heading;
  vehicle_acceleration_xy = (ax, ay);
}

abbrev pub is_fixed_wing : State → Bool
is_fixed_wing fixed_wing = true
is_fixed_wing transition_to_fixed_wing = true
is_fixed_wing _ = false

abbrev pub is_multicopter : State → Bool
is_multicopter multicopter = true
is_multicopter transition_to_multicopter = true
is_multicopter _ = false

-- 150 ms
abbrev pub min_command_interval : ℕ
min_command_interval = 150_000_000

module _ (c : Px4Msgs) (config : VtolConfig) where
  -- The last status is younger than the timeout.
  abbrev pub is_status_fresh : ℕ → Vtol → Bool
  is_status_fresh now v =
      ltb now (v.last_vtol_vehicle_status_received + config.status_timeout * 1_000_000_000)

  -- What `toMulticopter` and `toFixedwing` share: `from` are the states that are left.
  unfoldable pub transition : (State → Bool) → ℕ → ℕ → Vtol → Bool × Vtol
  transition from target now v =
      if is_status_fresh now v
      then (
        true,
        (if from v.current_state && ltb (v.last_command_sent + min_command_interval) now
            then record v {
              last_command_sent = now;
              published =
                  (
                    now,
                    record {
                      command = c.vehicle_cmd_do_vtol_transition;
                      param1 = target;
                      param2 = 0;
                      target_system = 0;
                      target_component = 1;
                    },
                  )
                  ∷ v.published;
            }
            else v),
      )
      else (false, v)

  unfoldable pub to_multicopter : ℕ → Vtol → Bool × Vtol
  to_multicopter now v = transition is_fixed_wing c.vehicle_vtol_state_mc now v

  unfoldable pub to_fixedwing : ℕ → Vtol → Bool × Vtol
  to_fixedwing now v = transition is_multicopter c.vehicle_vtol_state_fw now v

abbrev pub is_backtransition : State → Bool
is_backtransition transition_to_multicopter = true
is_backtransition _ = false

-- `std::clamp`
unfoldable pub clamp : F32 → F32 → F32 → F32
clamp x low high = if lt32 x low then low else (if lt32 high x then high else x)

-- The reset for a new transition, after two seconds without an update.
unfoldable pub restart : F32 → Vtol → F32 × Vtol
restart dt v = if lt32 two dt then (0, record v { decel_error_bt_int = 0 }) else (dt, v)

module _ (f : FloatOps) (config : VtolConfig) where
  -- `computePitchSetpointDuringBacktransition`
  unfoldable pub pitch_setpoint : Option F32 → ℕ → Vtol → F32 × Vtol
  pitch_setpoint deceleration_m_s2 now v =
      let setpoint = value_or deceleration_m_s2 config.back_transition_deceleration in
      let (ax, ay) = v.vehicle_acceleration_xy in
      let deceleration =
        f.neg (f.add (f.mul ax (f.cos v.vehicle_heading)) (f.mul ay (f.sin v.vehicle_heading))) in
      let error = f.sub setpoint deceleration in
      let (dt, v') =
        restart (f.seconds_between now v.last_pitch_integrator_update)
          (record v { last_pitch_integrator_update = now }) in
      let integral =
        f.add v'.decel_error_bt_int
          (f.mul (f.mul config.back_transition_deceleration_setpoint_to_pitch_i error) dt) in
      let clamped = clamp integral 0 config.deceleration_integrator_limit in
      if is_nan32 deceleration
      then (v'.decel_error_bt_int, v')
      else (clamped, record v' { decel_error_bt_int = clamped })

  -- `computeAccelerationSetpointDuringTransition`
  unfoldable pub acceleration_setpoint : Option F32 → ℕ → Vtol → (F32 × F32 × F32) × Vtol
  acceleration_setpoint deceleration_m_s2 now v =
      let (pitch, v') =
        if is_backtransition v.current_state
        then pitch_setpoint deceleration_m_s2 now v
        else (0, v) in
      let factor = f.mul (f.tan pitch) one_g in
      (
        (
          f.mul factor (f.neg (f.cos v.vehicle_heading)),
          f.mul factor (f.neg (f.sin v.vehicle_heading)),
          nan32,
        ),
        v',
      )
