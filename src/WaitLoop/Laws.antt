-- ===== src/WaitLoop/Laws.antt =====
-- What the request loop returns, for every behaviour of the environment.
use px4_ros.Base.{
  true, any, has_value, ℕ, zero, suc, ◌+◌, ◌≤◌, ◌<◌, ◌≡◌, refl, inl, inr, List, [], ◌∷◌, ◌++◌,
  Option, none, some, arith, Option-cases, All, ap, ◌∙◌,
}
use native.Mathlib.Nat.{add-zero, add-suc, suc-add, zero-add}
use px4_ros.WaitLoop.{Wait, taken, not_taken, timed_out, on_message, await, request}

module _ {ℓ κ} {M : Type ℓ} {R : Type κ} (handle : M → Option R) where
  -- A message that the handler passes over.
  abbrev pub Ignored : Wait M → Type κ
  Ignored (taken m) = handle m ≡ none
  Ignored not_taken = Unit
  Ignored timed_out = Unit

  on_message-Ignored : (w : Wait M) → Ignored w → on_message handle w ≡ none
  unfolding on_message
  on_message-Ignored (taken m) h = h
  on_message-Ignored not_taken h = refl
  on_message-Ignored timed_out h = refl

  pub await-Ignored : (ws : List (Wait M)) → All Ignored ws → await handle ws ≡ none
  unfolding await
  await-Ignored [] h = refl
  await-Ignored (w ∷ ws) h = rw (on_message-Ignored w h.0, await) (await-Ignored ws h.1)

  -- The first message that the handler takes decides, whatever it passed over before.
  pub await-first :
      (ws : List (Wait M)) (m : M) (r : R) (rest : List (Wait M))
      → All Ignored ws
      → handle m ≡ some r
      → await handle (ws ++ taken m ∷ rest) ≡ some r
  unfolding await on_message
  await-first [] m r rest h e = rw (e, await)
  await-first (w ∷ ws) m r rest h e =
      rw (on_message-Ignored w h.0, await) (await-first ws m r rest h.1 e)

  -- The number of requests lies between the attempts made before and all of them.
  pub request_count :
      (left attempt : ℕ) (waits : ℕ → List (Wait M))
      → (attempt ≤ (request handle left attempt waits).1)
        × ((request handle left attempt waits).1 ≤ attempt + left)
  unfolding request
  request_count zero attempt waits = omega arith
  request_count (suc left) attempt waits = elim (Option-cases (await handle (waits attempt))) [
    | inl e ↦ rw (e, request) (omega (arith, request_count left (suc attempt) waits))
    | inr (r, e) ↦ rw (e, request) (omega arith)
  ]

  -- The reply of attempt `attempt + k`, if the attempts before it had none.
  pub request_reply :
      (k left attempt : ℕ) (waits : ℕ → List (Wait M)) (r : R)
      → k < left
      → ((i : ℕ) → i < k → await handle (waits (attempt + i)) ≡ none)
      → await handle (waits (attempt + k)) ≡ some r
      → request handle left attempt waits ≡ (some r, attempt + suc k)
  unfolding request
  request_reply k zero attempt waits r h before e = elim h [ ]
  request_reply zero (suc left) attempt waits r h before e =
      rw (rw (add-zero attempt) at e, request) (ap (λ (n : ℕ). (some r, n)) (omega arith))
  request_reply (suc k) (suc left) attempt waits r h before e =
      rw (rw (add-zero attempt) at (before 0 (omega arith)), request)
        (rw (add-suc attempt (suc k), ← suc-add attempt (suc k))
          (request_reply k left (suc attempt) waits r (omega arith)
            (λ i hi. rw (suc-add attempt i, ← add-suc attempt i) (before (suc i) (omega arith)))
            (rw (suc-add attempt k, ← add-suc attempt k) e)))

  -- No reply in any attempt: every request is published and there is no result.
  pub request_timeout :
      (left attempt : ℕ) (waits : ℕ → List (Wait M))
      → ((i : ℕ) → await handle (waits i) ≡ none)
      → request handle left attempt waits ≡ (none, attempt + left)
  unfolding request
  request_timeout zero attempt waits h = rw (add-zero attempt)
  request_timeout (suc left) attempt waits h =
      rw (h attempt, request)
        (rw (add-suc attempt left, ← suc-add attempt left)
          (request_timeout left (suc attempt) waits h))

  -- The same from the messages: all attempts before number `k` were passed over.
  pub request_first :
      (k n : ℕ) (waits : ℕ → List (Wait M)) (before after : List (Wait M)) (m : M) (r : R)
      → k < n
      → ((i : ℕ) → i < k → All Ignored (waits i))
      → waits k ≡ before ++ taken m ∷ after
      → All Ignored before
      → handle m ≡ some r
      → request handle n 0 waits ≡ (some r, suc k)
  request_first k n waits before after m r h earlier e foreign taking =
      request_reply k n 0 waits r h
        (λ i hi. rw (zero-add i) (await-Ignored (waits i) (earlier i hi)))
        (rw (zero-add k, e) (await-first before m r after foreign taking))
      ∙ ap (λ (n : ℕ). (some r, n)) (zero-add (suc k))

  pub request-none :
      (n : ℕ) (waits : ℕ → List (Wait M))
      → ((i : ℕ) → All Ignored (waits i))
      → request handle n 0 waits ≡ (none, n)
  request-none n waits h =
      request_timeout n 0 waits (λ i. await-Ignored (waits i) (h i))
      ∙ ap (λ (n : ℕ). (none, n)) (zero-add n)

module _ {ℓ κ} {M : Type ℓ} {R : Type κ} (handle : M → Option R) where
  -- A result comes from a message that was taken, at some place in what the wait set returned.
  pub await_taken :
      (ws : List (Wait M)) (r : R)
      → await handle ws ≡ some r
      → (m : M) × (before : List (Wait M)) × (after : List (Wait M)) × (ws
          ≡ before ++ taken m ∷ after)
        × (handle m ≡ some r)
  unfolding await on_message
  await_taken [] r h = cc
  await_taken (taken m ∷ ws) r h = elim (Option-cases (handle m)) [
    | inl e ↦
        let (n, before, after, p, q) = await_taken ws r (rw (e, await) at h) in
        (n, taken m ∷ before, after, ap (◌∷◌ (taken m)) p, q)
    | inr (q, e) ↦ (m, [], ws, refl, e ∙ (rw (e, await) at h))
  ]
  await_taken (not_taken ∷ ws) r h =
      let (n, before, after, p, q) = await_taken ws r h in
      (n, not_taken ∷ before, after, ap (◌∷◌ not_taken) p, q)
  await_taken (timed_out ∷ ws) r h =
      let (n, before, after, p, q) = await_taken ws r h in
      (n, timed_out ∷ before, after, ap (◌∷◌ timed_out) p, q)

  pub request_taken :
      (left attempt : ℕ) (waits : ℕ → List (Wait M)) (r : R)
      → (request handle left attempt waits).0 ≡ some r
      → (i : ℕ) × (m : M) × (before : List (Wait M)) × (after : List (Wait M)) × (i
          < attempt + left)
        × (waits i ≡ before ++ taken m ∷ after)
        × (handle m ≡ some r)
  unfolding request
  request_taken zero attempt waits r h = cc
  request_taken (suc left) attempt waits r h = elim (Option-cases (await handle (waits attempt))) [
    | inl e ↦
        let (i, m, before, after, k, p, q) =
          request_taken left (suc attempt) waits r (rw (e, request) at h) in
        (i, m, before, after, omega arith, p, q)
    | inr (q, e) ↦
        let (m, before, after, p, f) = await_taken (waits attempt) r (e ∙ (rw (e, request) at h)) in
        (attempt, m, before, after, omega arith, p, f)
  ]

  pub request_source :
      (left attempt : ℕ) (waits : ℕ → List (Wait M)) (r : R)
      → (request handle left attempt waits).0 ≡ some r
      → (m : M) × (handle m ≡ some r)
  request_source left attempt waits r h =
      let (i, m, before, after, k, p, e) = request_taken left attempt waits r h in (m, e)

-- A message that the handler takes is found, or one before it.
pub await_holds {ℓ κ} :
    {M : Type ℓ} {R : Type κ} (handle : M → Option R) (before : List (Wait M)) (m : M)
    (after : List (Wait M)) (r : R)
    → handle m ≡ some r
    → has_value (await handle (before ++ taken m ∷ after)) ≡ true
unfolding await on_message
await_holds handle [] m after r h = rw (h, await) refl
await_holds handle (w ∷ ws) m after r h = elim (Option-cases (on_message handle w)) [
  | inl e ↦ rw (e, await) (await_holds handle ws m after r h)
  | inr (q, e) ↦ rw (e, await) refl
]

-- The wait for a message finds one exactly if there is one.
pub await-any {ℓ κ} :
    {M : Type ℓ} {R : Type κ} (handle : M → Option R) (ws : List (Wait M))
    → has_value (await handle ws) ≡ any (λ w. has_value (on_message handle w)) ws
unfolding await
await-any handle [] = refl
await-any handle (w ∷ ws) = elim (Option-cases (on_message handle w)) [
  | inl e ↦ rw (e, await) (await-any handle ws)
  | inr (r, e) ↦ rw (e, await) refl
]
