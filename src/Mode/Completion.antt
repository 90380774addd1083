-- ===== src/Mode/Completion.antt =====
-- A mode reports its completion once for each activation.
use px4_ros.Base.{
  ℕ, ◌≡◌, refl, ◌∙◌, ap, true, false, List, [], ◌∷◌, ◌++◌, Option, none, some, if◌then◌else◌, arith,
  Bool-cases, inl, inr, F32,
}
use px4_ros.CommandSender.{Result, of_result}
use px4_ros.Requirements.{Configuration}
use px4_ros.Overrides
use px4_ros.Mode.{
  Mode, Output, id, mode_completed, control_mode, notified, complete, run_request, run_requests,
  Request, completes, sets_rate, updates, overrides, set_setpoint_update_rate, setpoint_update,
  update_setpoint_update_timer, publish_all, emit, fill_control_mode, select, selected,
  is_inactive_type,
}

-- The completions among the messages, the latest first: the mode and the result.
pub completions : List Output → List (ℕ × ℕ)
completions [] = []
completions (mode_completed mode result ∷ os) = (mode, result) ∷ completions os
completions (control_mode c ∷ os) = completions os
completions (notified n ∷ os) = completions os

-- The result of the first completion that is asked for.
pub first_result : List Request → Option Result
first_result [] = none
first_result (completes result ∷ rs) = some result
first_result (sets_rate rate_hz ∷ rs) = first_result rs
first_result (updates object ∷ rs) = first_result rs
first_result (overrides r ∷ rs) = first_result rs

abbrev pub report_of : ℕ → Option Result → List (ℕ × ℕ)
report_of mode none = []
report_of mode (some result) = (mode, of_result result) ∷ []

-- What the other requests leave alone.
record Same (m n : Mode) : Type 0 where
  completed : n.completed ≡ m.completed
  mode : id n ≡ id m
  sent : completions n.outputs ≡ completions m.outputs

publish_all-Same : (cs : List Configuration) (m : Mode) → Same m (publish_all cs m)
unfolding completions
publish_all-Same [] m = record { completed = refl; mode = refl; sent = refl }
publish_all-Same (c ∷ cs) m =
    let h = publish_all-Same cs (emit (control_mode (fill_control_mode (id m) c)) m) in
    record { completed = h.completed; mode = h.mode; sent = h.sent }

set_rate-Same : (rate_hz : F32) (m : Mode) → Same m (set_setpoint_update_rate rate_hz m)
unfolding set_setpoint_update_rate update_setpoint_update_timer
set_rate-Same rate_hz m = ground arith

update-Same : (object : ℕ) (m : Mode) → Same m (setpoint_update object m)
unfolding setpoint_update
update-Same object m = elim (Bool-cases (is_inactive_type object m.setpoint_types)) [
  | inl e ↦
      let h =
        publish_all-Same (selected object m.setpoint_types)
          (record m { setpoint_types = select object m.setpoint_types }) in
      rw e (record { completed = h.completed; mode = h.mode; sent = h.sent })
  | inr e ↦ rw e (record { completed = refl; mode = refl; sent = refl })
]

skip :
    (o : Option Result) (m n : Mode) {sent : List (ℕ × ℕ)}
    → Same m n
    → sent ≡ (if n.completed then [] else report_of (id n) o) ++ completions n.outputs
    → sent ≡ (if m.completed then [] else report_of (id m) o) ++ completions m.outputs
skip o m n s e = e ∙ rw (s.completed, s.mode, s.sent)

complete_again : (result : Result) (m : Mode) → m.completed ≡ true → complete result m ≡ m
unfolding complete
complete_again result m e = rw e

complete_once :
    (result : Result) (m : Mode)
    → m.completed ≡ false
    → complete result m ≡ record m {
      completed = true;
      outputs = mode_completed (id m) (of_result result) ∷ m.outputs;
    }
unfolding complete
complete_once result m e = ground (arith, e)

-- Whatever a mode's own code asks for between an activation and the next: if the mode has not
-- completed yet, the first completion is reported with the mode's id and no other is; if it has,
-- none is.
pub run_requests-completions :
    (rs : List Request) (m : Mode)
    → completions (run_requests rs m).outputs
      ≡ (if m.completed then [] else report_of (id m) (first_result rs)) ++ completions m.outputs
unfolding run_requests run_request first_result completions
run_requests-completions [] m = elim (Bool-cases m.completed) [ inl e ↦ rw e | inr e ↦ rw e ]
run_requests-completions (completes result ∷ rs) m = elim (Bool-cases m.completed) [
  | inl e ↦
      ap (λ (n : Mode). completions (run_requests rs n).outputs) (complete_again result m e)
      ∙ run_requests-completions rs m
      ∙ rw e
  | inr e ↦
      ap (λ (n : Mode). completions (run_requests rs n).outputs) (complete_once result m e)
      ∙ run_requests-completions rs (record m {
        completed = true;
        outputs = mode_completed (id m) (of_result result) ∷ m.outputs;
      })
      ∙ rw e
]
run_requests-completions (sets_rate rate_hz ∷ rs) m =
    let n = set_setpoint_update_rate rate_hz m in
    skip (first_result rs) m n (set_rate-Same rate_hz m) (run_requests-completions rs n)
run_requests-completions (updates object ∷ rs) m =
    let n = setpoint_update object m in
    skip (first_result rs) m n (update-Same object m) (run_requests-completions rs n)
run_requests-completions (overrides r ∷ rs) m =
    run_requests-completions rs
      (record m { config_overrides = Overrides.apply r m.config_overrides })
