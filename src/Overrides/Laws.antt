-- ===== src/Overrides/Laws.antt =====
-- No request is lost: what was asked for before the setup goes out with it, in one message.
use px4_ros.Base.{
  ℕ, true, false, ◌||◌, ◌≡◌, refl, List, [], ◌∷◌, is_empty, arith, not, if◌then◌else◌,
}
use px4_ros.Overrides.{
  Overrides, ConfigOverrides, new, setup, Request, auto_disarm, failsafes, auto_set_home, apply,
  apply_all,
}

-- The settings that a request changes, as a specification: the latest value of each wins.
pub settle : Request → Overrides → Overrides
settle (auto_disarm enabled) o = record o { disable_auto_disarm = not enabled }
settle (failsafes enabled timeout_s) o = record o {
  defer_failsafes = enabled;
  defer_failsafes_timeout_s = timeout_s;
}
settle (auto_set_home enabled) o = record o { disable_auto_set_home = not enabled }

pub settle_all : List Request → Overrides → Overrides
settle_all [] o = o
settle_all (r ∷ rs) o = settle_all rs (settle r o)

apply_before :
    (r : Request) (c : ConfigOverrides)
    → c.is_setup ≡ false
    → apply r c ≡ record c {
      current_overrides = settle r c.current_overrides;
      require_update_after_setup = true;
    }
unfolding apply settle
apply_before (auto_disarm enabled) c h = ground arith
apply_before (failsafes enabled timeout_s) c h = ground arith
apply_before (auto_set_home enabled) c h = ground arith

apply_after :
    (r : Request) (c : ConfigOverrides)
    → c.is_setup ≡ true
    → apply r c ≡ record c {
      current_overrides = settle r c.current_overrides;
      published = settle r c.current_overrides ∷ c.published;
    }
unfolding apply settle
apply_after (auto_disarm enabled) c h = ground arith
apply_after (failsafes enabled timeout_s) c h = ground arith
apply_after (auto_set_home enabled) c h = ground arith

-- The state after one request before the setup.
abbrev asked : Request → ConfigOverrides → ConfigOverrides
asked r c = record c {
  current_overrides = settle r c.current_overrides;
  require_update_after_setup = true;
}

-- Before the setup nothing is published, and the requests are merged.
apply_all_before :
    (rs : List Request) (c : ConfigOverrides)
    → c.is_setup ≡ false
    → apply_all rs c ≡ record c {
      current_overrides = settle_all rs c.current_overrides;
      require_update_after_setup = not (is_empty rs) || c.require_update_after_setup;
    }
unfolding apply_all settle_all
apply_all_before [] c h = refl
apply_all_before (r ∷ rs) c h =
    rw (apply_before r c h) (ground (arith, apply_all_before rs (asked r c) h))

-- The state after one request after the setup.
abbrev sent : Request → ConfigOverrides → ConfigOverrides
sent r c = record c {
  current_overrides = settle r c.current_overrides;
  published = settle r c.current_overrides ∷ c.published;
}

-- The message that the autopilot gets at the setup.
abbrev pub settled : ℕ → ℕ → List Request → Overrides → Overrides
settled type id rs o = record (settle_all rs o) { source_type = type; source_id = id }

-- Requests made before the setup publish nothing; the setup then publishes one message with the
-- latest value of every setting and the source's type and id, or nothing if there was no request.
pub setup-apply_all :
    (rs : List Request) (type id : ℕ)
    → ((apply_all rs new).published ≡ [])
      × ((setup type id (apply_all rs new)).published
          ≡ (if is_empty rs then [] else settled type id rs new.current_overrides ∷ []))
      × ((setup type id (apply_all rs new)).is_setup ≡ true)
      × ((setup type id (apply_all rs new)).require_update_after_setup ≡ false)
unfolding setup new apply_all
setup-apply_all [] type id = (refl, refl, refl, refl)
setup-apply_all (r ∷ rs) type id = rw (apply_all_before (r ∷ rs) new refl) (refl, refl, refl, refl)

-- The messages that a history of requests publishes one by one, the latest first.
pub publish_each : List Request → Overrides → List Overrides → List Overrides
publish_each [] o published = published
publish_each (r ∷ rs) o published = publish_each rs (settle r o) (settle r o ∷ published)

-- After the setup every request publishes one message at once, which carries all the settings made
-- so far, and nothing else changes.
pub apply_all-publish_each :
    (rs : List Request) (c : ConfigOverrides)
    → c.is_setup ≡ true
    → apply_all rs c ≡ record c {
      current_overrides = settle_all rs c.current_overrides;
      published = publish_each rs c.current_overrides c.published;
    }
unfolding apply_all settle_all publish_each
apply_all-publish_each [] c h = refl
apply_all-publish_each (r ∷ rs) c h =
    rw (apply_after r c h) (ground (arith, apply_all-publish_each rs (sent r c) h))
