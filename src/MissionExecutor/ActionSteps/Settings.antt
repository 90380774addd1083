-- ===== src/MissionExecutor/ActionSteps/Settings.antt =====
-- px4_ros2_cpp/src/mission/actions/default_actions.cpp: the settings that are stored and restored.
use px4_ros.Base.{
  ℕ, ◌≡◌, refl, ap, true, false, Option, none, some, String, F32, ◌==◌, if◌then◌else◌, ◌>>=◌,
  map_option, has_value,
}
use mathlib.Core.Option.{some-injective}
use px4_ros.Json.{JsonOps, JsonLaws}
use px4_ros.Mission.{TrajectoryOptions, combine_with, overridden_by}
use px4_ros.Mission.JsonForm.{contains, at, read_value, options_from_json, options_to_json}
use px4_ros.Mission.JsonForm.RoundTrip.{lookup-object}
use px4_ros.Mission.JsonForm.MissionRoundTrip.{AreNumbers, converted, read_options, options_values}
use px4_ros.MissionExecutor.{MissionExecutor, Setup, Completion, Told}
use px4_ros.MissionExecutor.Client.{sets_trajectory_options, run_request, if_valid}
use px4_ros.MissionExecutor.ActionSteps.{
  argument_or, setting, merge_settings, stored_settings, merged, reset_or_merge,
  run_change_settings,
}

-- What a chain that gives a result has read first.
bind_some :
    {A B : Type 0} (m : Option A) (f : A → Option B) (b : B)
    → (m >>= f) ≡ some b
    → (a : A) × (m ≡ some a) × (f a ≡ some b)
bind_some none f b e = cc
bind_some (some a) f b e = (a, refl, e)

map_option-identity : (o : Option F32) → map_option (λ x. x) o ≡ o
map_option-identity none = refl
map_option-identity (some x) = refl

module _ {J : Type 0} (json : JsonOps J) where
  -- Reading an option, converted, over an old one.
  setting-read_value :
      (convert : F32 → F32) (old o : Option F32) (arguments : J) (key : String)
      → read_value json json.to_float (json.lookup key arguments) ≡ some o
      → setting json convert old arguments key ≡ some (overridden_by old (map_option convert o))
  unfolding setting contains at read_value
  setting-read_value convert old o arguments key e = of_lookup (json.lookup key arguments) e
    where
      of_value :
          (x : Option F32)
          → (x >>= λ a. some (some a)) ≡ some o
          → (x >>= λ a. some (some (convert a))) ≡ some (overridden_by old (map_option convert o))
      of_value none h = cc
      of_value (some a) h =
          ap (λ o. some (overridden_by old (map_option convert o))) (some-injective _ _ h)

      of_lookup :
          (v : Option J)
          → read_value json json.to_float v ≡ some o
          → (if has_value v
              then ((v >>= json.to_float) >>= λ a. some (some (convert a)))
              else some old)
            ≡ some (overridden_by old (map_option convert o))
      of_lookup none h =
          ap (λ o. some (overridden_by old (map_option convert o))) (some-injective _ _ h)
      of_lookup (some j) h = of_value (json.to_float j) h

  module _ (deg_to_rad rad_to_deg : F32 → F32) where
    -- The settings of the arguments are those that `from_json` reads, over the current ones.
    pub merge_settings-combine_with :
        (options o : TrajectoryOptions) (arguments : J)
        → options_from_json json deg_to_rad rad_to_deg arguments ≡ some o
        → merge_settings json deg_to_rad rad_to_deg options arguments
          ≡ some (combine_with options o)
    unfolding merge_settings options_from_json combine_with
    merge_settings-combine_with options o arguments e =
        let (horizontal, e1, r1) = bind_some _ _ _ e in
        let (vertical, e2, r2) = bind_some _ _ _ r1 in
        let (rate, e3, r3) = bind_some _ _ _ r2 in
        let h1 =
          setting-read_value (λ x. x) options.horizontal_velocity horizontal arguments _ e1 in
        let h2 = setting-read_value (λ x. x) options.vertical_velocity vertical arguments _ e2 in
        let h3 = setting-read_value deg_to_rad options.max_heading_rate rate arguments _ e3 in
        rw h1 (
          rw h2 (
            rw h3 (
              rw (map_option-identity horizontal) (
                rw (map_option-identity vertical)
                  (ap (λ o. some (combine_with options o)) (some-injective _ _ r3))))))

    -- No settings are stored under the key that resets them.
    stored_settings-reset_all :
        (laws : JsonLaws json) (o : TrajectoryOptions)
        → argument_or json json.to_bool false
            (stored_settings json deg_to_rad rad_to_deg o).arguments
            "resetAll"
          ≡ some false
    unfolding argument_or stored_settings contains options_to_json
    stored_settings-reset_all laws o =
        rw (lookup-object json laws "resetAll" (options_values json laws deg_to_rad rad_to_deg o))
          refl

    stored_settings-options_from_json :
        (laws : JsonLaws json) (o : TrajectoryOptions)
        → AreNumbers json laws deg_to_rad rad_to_deg o
        → options_from_json json deg_to_rad rad_to_deg
            (stored_settings json deg_to_rad rad_to_deg o).arguments
          ≡ some (converted json laws deg_to_rad rad_to_deg o)
    unfolding stored_settings options_to_json
    stored_settings-options_from_json laws o n =
        read_options json laws deg_to_rad rad_to_deg o _ n
          (λ key. lookup-object json laws key (options_values json laws deg_to_rad rad_to_deg o))

overridden_by-twice :
    (old o : Option F32) → overridden_by old (overridden_by old o) ≡ overridden_by old o
overridden_by-twice none none = refl
overridden_by-twice (some a) none = refl
overridden_by-twice old (some x) = refl

combine_with-twice :
    (options o : TrajectoryOptions)
    → combine_with options (combine_with options o) ≡ combine_with options o
unfolding combine_with
combine_with-twice options o i = record {
  horizontal_velocity = overridden_by-twice options.horizontal_velocity o.horizontal_velocity i;
  vertical_velocity = overridden_by-twice options.vertical_velocity o.vertical_velocity i;
  max_heading_rate = overridden_by-twice options.max_heading_rate o.max_heading_rate i;
}

module _ {J : Type 0} (json : JsonOps J) (setup : Setup J) where
  -- Let the JSON library work as documented, and let the velocities and the heading rate in
  -- degrees that the change of settings stores be numbers. When the action is run with what it has
  -- stored and a valid handler, it asks for the current options overridden by the stored ones, the
  -- heading rate converted to degrees and back, stores them again, and completes; and these are
  -- the options that the executor then has.
  pub run_change_settings-stored_settings :
      (laws : JsonLaws json) (deg_to_rad rad_to_deg : F32 → F32)
      (tell : Told J → MissionExecutor J → MissionExecutor J) (s : MissionExecutor J)
      (o : TrajectoryOptions) (h : ℕ) (k : Completion)
      → AreNumbers json laws deg_to_rad rad_to_deg o
      → (h == s.action_handler) ≡ true
      → let options =
          combine_with s.trajectory_options (converted json laws deg_to_rad rad_to_deg o) in
        (run_change_settings json deg_to_rad rad_to_deg h s.trajectory_options
            (stored_settings json deg_to_rad rad_to_deg o).arguments
            k
          ≡ some (merged json deg_to_rad rad_to_deg h k options))
        × ((run_request json setup tell (sets_trajectory_options h options) s).trajectory_options
            ≡ options)
  unfolding run_change_settings reset_or_merge run_request if_valid
  run_change_settings-stored_settings laws deg_to_rad rad_to_deg tell s o h k n valid =
      let options =
        combine_with s.trajectory_options (converted json laws deg_to_rad rad_to_deg o) in
      let read = stored_settings-options_from_json json deg_to_rad rad_to_deg laws o n in
      let merge =
        merge_settings-combine_with json deg_to_rad rad_to_deg s.trajectory_options _ _ read in
      (
        rw (stored_settings-reset_all json deg_to_rad rad_to_deg laws o) (rw merge refl),
        rw valid
            (combine_with-twice s.trajectory_options (converted json laws deg_to_rad rad_to_deg o)),
      )
