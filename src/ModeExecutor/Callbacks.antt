-- ===== src/ModeExecutor/Callbacks.antt =====
-- Every completion callback that is handed to the executor is called exactly once, or is still
-- waited for, unless an assertion failed.
use px4_ros.Base.{
  ℕ, ◌+◌, ◌≡◌, Bool, true, false, not, ◌&&◌, List, [], ◌∷◌, Option, none, some, ◌==◌, if◌then◌else◌,
  has_value, arith, Bool-cases, Option-cases, inl, inr,
}
use px4_ros.Px4Msgs.{VehicleStatus}
use px4_ros.CommandSender.{Result, success, deactivated, to_result}
use px4_ros.Registration.{mode_id_invalid}
use px4_ros.ModeExecutor.{
  Executor, Told, Callback, Condition, call_back, cancel_scheduled, cancel_wait, update_wait,
  on_mode_completed, activate_scheduled, activate_wait, on_completed, is_success, condition_holds,
}

pub one : Callback → Callback → ℕ
one j k = if j == k then 1 else 0

-- How often a callback stands in a list.
abbrev pub count : Callback → List Callback → ℕ
count k [] = 0
count k (x ∷ xs) = one k x + count k xs

abbrev pub of_pending {ℓ} : {A : Type ℓ} → Callback → Option (A × Callback) → ℕ
of_pending k none = 0
of_pending k (some (a, x)) = one k x

abbrev pub pending : Callback → Executor → ℕ
pending k s = of_pending k s.scheduled_mode + of_pending k s.wait_vehicle_status

-- As long as no assertion failed, each callback was handed in as often as it was called and is
-- waited for, but for those that the operations under way still hold.
abbrev pub BalancedBut : (Callback → ℕ) → Executor → Type 0
BalancedBut held s =
    (k : Callback)
    → s.asserts_hold ≡ true
    → count k s.requested ≡ held k + count k s.called + pending k s

abbrev pub IsBalanced : Executor → Type 0
IsBalanced s =
    (k : Callback) → s.asserts_hold ≡ true → count k s.requested ≡ count k s.called + pending k s

abbrev pub also : Callback → (Callback → ℕ) → Callback → ℕ
also k held j = one j k + held j

-- User code keeps the balance.
abbrev pub Fair : (Told → Executor → Executor) → Type 0
Fair tell =
    (held : Callback → ℕ) (t : Told) (s : Executor)
    → BalancedBut held s
    → BalancedBut held (tell t s)

pub if-BalancedBut :
    (held : Callback → ℕ) (b : Bool) (x y : Executor)
    → BalancedBut held x
    → BalancedBut held y
    → BalancedBut held (if b then x else y)
if-BalancedBut held true x y p q = p
if-BalancedBut held false x y p q = q

and_left : (x y : Bool) → (x && y) ≡ true → x ≡ true
and_left x y h = ground arith

and_right : (x y : Bool) → (x && y) ≡ true → y ≡ true
and_right x y h = ground arith

pub activate_wait-BalancedBut :
    (held : Callback → ℕ) (condition : Condition) (k : Callback) (s : Executor)
    → BalancedBut (also k held) s
    → BalancedBut held (activate_wait condition k s)
unfolding activate_wait
activate_wait-BalancedBut held condition k s h = λ j a. elim (Option-cases s.wait_vehicle_status) [
  | inl e ↦ omega (arith, rw e at (h j (and_left _ _ a)))
  | inr (w, e) ↦
      let q : false ≡ true =
        rw e at (and_right s.asserts_hold (not (has_value s.wait_vehicle_status)) a) in
      cc
]

activate_scheduled-BalancedBut :
    (held : Callback → ℕ) (mode : ℕ) (k : Callback) (s : Executor)
    → (mode == mode_id_invalid) ≡ false
    → BalancedBut (also k held) s
    → BalancedBut held (activate_scheduled mode k s)
unfolding activate_scheduled
activate_scheduled-BalancedBut held mode k s v h = λ j a. elim (Option-cases s.scheduled_mode) [
  | inl e ↦ rw v (omega (arith, rw e at (h j (and_left _ _ a))))
  | inr (w, e) ↦
      let q : false ≡ true =
        rw e at (and_right s.asserts_hold (not (has_value s.scheduled_mode)) a) in
      cc
]

module _ (tell : Told → Executor → Executor) (fair : Fair tell) (held : Callback → ℕ) where
  -- A call of a callback that was waited for.
  pub call_back-BalancedBut :
      (k : Callback) (result : Result) (s : Executor)
      → BalancedBut (also k held) s
      → BalancedBut held (call_back tell k result s)
  unfolding call_back
  call_back-BalancedBut k result s h =
      fair held (on_completed k result) (record s { called = k ∷ s.called })
        (λ j a. omega (arith, h j a))

  pub cancel_scheduled-BalancedBut :
      (s : Executor) → BalancedBut held s → BalancedBut held (cancel_scheduled tell s)
  unfolding cancel_scheduled
  cancel_scheduled-BalancedBut s h = elim (Option-cases s.scheduled_mode) [
    | inl e ↦ rw (e, cancel_scheduled) h
    | inr ((mode, k), e) ↦
        rw (e, cancel_scheduled)
          (call_back-BalancedBut k deactivated (record s { scheduled_mode = none })
            (λ j a. omega (arith, rw e at (h j a))))
  ]

  pub on_mode_completed-BalancedBut :
      (nav_state result : ℕ) (s : Executor)
      → BalancedBut held s
      → BalancedBut held (on_mode_completed tell nav_state result s)
  unfolding on_mode_completed
  on_mode_completed-BalancedBut nav_state result s h = elim (Option-cases s.scheduled_mode) [
    | inl e ↦ rw (e, on_mode_completed) h
    | inr ((mode, k), e) ↦
        rw (e, on_mode_completed)
          (elim (Bool-cases (nav_state == mode)) [
            | inl p ↦ rw p (
                call_back-BalancedBut k (to_result result) (record s { scheduled_mode = none })
                  (λ j a. omega (arith, rw e at (h j a))))
            | inr p ↦ rw p h
          ])
  ]

  pub cancel_wait-BalancedBut :
      (s : Executor) → BalancedBut held s → BalancedBut held (cancel_wait tell s)
  unfolding cancel_wait
  cancel_wait-BalancedBut s h = elim (Option-cases s.wait_vehicle_status) [
    | inl e ↦ rw (e, cancel_wait) h
    | inr ((condition, k), e) ↦
        rw (e, cancel_wait)
          (call_back-BalancedBut k deactivated (record s { wait_vehicle_status = none })
            (λ j a. omega (arith, rw e at (h j a))))
  ]

  pub update_wait-BalancedBut :
      (msg : VehicleStatus) (s : Executor)
      → BalancedBut held s
      → BalancedBut held (update_wait tell msg s)
  unfolding update_wait
  update_wait-BalancedBut msg s h = elim (Option-cases s.wait_vehicle_status) [
    | inl e ↦ rw (e, update_wait) h
    | inr ((condition, k), e) ↦
        rw (e, update_wait)
          (elim (Bool-cases (condition_holds condition msg s)) [
            | inl p ↦ rw p (
                call_back-BalancedBut k success (record s { wait_vehicle_status = none })
                  (λ j a. omega (arith, rw e at (h j a))))
            | inr p ↦ rw p h
          ])
  ]

  -- The end of `scheduleMode` and of `arm` and `disarm`.
  pub after_command-BalancedBut :
      (mode : ℕ) (k : Callback) (r : Result) (s : Executor)
      → (mode == mode_id_invalid) ≡ false
      → BalancedBut (also k held) s
      → BalancedBut held
          (if is_success r then activate_scheduled mode k s else call_back tell k r s)
  after_command-BalancedBut mode k r s v h = elim (Bool-cases (is_success r)) [
    | inl e ↦ rw e (activate_scheduled-BalancedBut held mode k s v h)
    | inr e ↦ rw e (call_back-BalancedBut k r s h)
  ]

  pub after_arming-BalancedBut :
      (condition : Condition) (k : Callback) (r : Result) (s : Executor)
      → BalancedBut (also k held) s
      → BalancedBut held
          (if is_success r then activate_wait condition k s else call_back tell k r s)
  after_arming-BalancedBut condition k r s h = elim (Bool-cases (is_success r)) [
    | inl e ↦ rw e (activate_wait-BalancedBut held condition k s h)
    | inr e ↦ rw e (call_back-BalancedBut k r s h)
  ]
