-- ===== src/Overrides.antt =====
-- px4_ros2_cpp/src/components/overrides.cpp: requests to the autopilot to change its behaviour,
-- kept back until the mode or the executor has its id.
pub mod Laws
use px4_ros.Base.{ℕ, ℤ, pos, Bool, true, false, not, List, [], ◌∷◌, if◌then◌else◌}

-- `px4_msgs::msg::ConfigOverrides`; the timestamp is set by the autopilot.
pub record Overrides : Type 0 where
  pub disable_auto_disarm : Bool
  pub defer_failsafes : Bool
  pub defer_failsafes_timeout_s : ℤ
  pub disable_auto_set_home : Bool
  pub source_type : ℕ
  pub source_id : ℕ

-- `published` is what went out on the topic, the latest message first.
pub record ConfigOverrides : Type 0 where
  pub current_overrides : Overrides
  pub is_setup : Bool
  pub require_update_after_setup : Bool
  pub published : List Overrides

unfoldable pub new : ConfigOverrides
new = record {
  current_overrides = record {
    disable_auto_disarm = false;
    defer_failsafes = false;
    defer_failsafes_timeout_s = pos 0;
    disable_auto_set_home = false;
    source_type = 0;
    source_id = 0;
  };
  is_setup = false;
  require_update_after_setup = false;
  published = [];
}

pub update : ConfigOverrides → ConfigOverrides
update c =
    if c.is_setup
    then record c { published = c.current_overrides ∷ c.published }
    else record c { require_update_after_setup = true }

unfoldable pub control_auto_disarm : Bool → ConfigOverrides → ConfigOverrides
unfolding update
control_auto_disarm enabled c = update (record c {
  current_overrides = record c.current_overrides { disable_auto_disarm = not enabled };
})

unfoldable pub defer_failsafes : Bool → ℤ → ConfigOverrides → ConfigOverrides
unfolding update
defer_failsafes enabled timeout_s c = update (record c {
  current_overrides = record c.current_overrides {
    defer_failsafes = enabled;
    defer_failsafes_timeout_s = timeout_s;
  };
})

unfoldable pub control_auto_set_home : Bool → ConfigOverrides → ConfigOverrides
unfolding update
control_auto_set_home enabled c = update (record c {
  current_overrides = record c.current_overrides { disable_auto_set_home = not enabled };
})

abbrev with_source : ℕ → ℕ → ConfigOverrides → ConfigOverrides
with_source type id c = record c {
  current_overrides = record c.current_overrides { source_type = type; source_id = id };
  is_setup = true;
}

-- `type` and `id` are of type `uint8_t`.
unfoldable pub setup : ℕ → ℕ → ConfigOverrides → ConfigOverrides
unfolding update
setup type id c =
    let d = with_source type id c in
    if d.require_update_after_setup
    then record (update d) { require_update_after_setup = false }
    else d

-- The public calls, in any order.
pub data Request : Type 0 where
  auto_disarm : Bool → Request
  failsafes : Bool → ℤ → Request
  auto_set_home : Bool → Request

pub apply : Request → ConfigOverrides → ConfigOverrides
unfolding control_auto_disarm defer_failsafes control_auto_set_home
apply (auto_disarm enabled) c = control_auto_disarm enabled c
apply (failsafes enabled timeout_s) c = defer_failsafes enabled timeout_s c
apply (auto_set_home enabled) c = control_auto_set_home enabled c

pub apply_all : List Request → ConfigOverrides → ConfigOverrides
apply_all [] c = c
apply_all (r ∷ rs) c = apply_all rs (apply r c)
