-- ===== src/Registration/Laws.antt =====
-- When a registration succeeds, and what it stores.
use px4_ros.Base.{
  ℕ, suc, ◌≤◌, ◌<◌, ◌≡◌, refl, true, false, inl, inr, List, [], ◌∷◌, ◌++◌, Option, none, some,
  arith, ◌∙◌, sym, leb→le, Bool-cases, All, length, leb, take, ◌-◌,
}
use mathlib.Core.Option.{some-injective}
use mathlib.Core.Bool.{false≢true}
use px4_ros.Px4Msgs.{Px4Msgs}
use px4_ros.WaitLoop.{Wait, taken, request}
use px4_ros.WaitLoop.Laws.{Ignored, request_first, request-none, request_taken}
use px4_ros.Registration.{
  Registration, RegistrationSettings, ExtComponentReply, same_bytes, matches_request, on_reply,
  accept_reply, c_string, UnregisterExtComponent, finish, do_register, max_requests,
  latest_px4_ros2_api_version,
}

-- `strcmp` as equality.
pub same_bytes→eq : (xs ys : List ℕ) → same_bytes xs ys ≡ true → xs ≡ ys
unfolding same_bytes
same_bytes→eq [] [] h = refl
same_bytes→eq [] (y ∷ ys) h = cc
same_bytes→eq (x ∷ xs) [] h = cc
same_bytes→eq (x ∷ xs) (y ∷ ys) h = ground (arith, same_bytes→eq xs ys)

-- A reply to another request, or for another name.
abbrev pub Foreign : Px4Msgs → RegistrationSettings → ℕ → Wait ExtComponentReply → Type 0
Foreign c s id = Ignored (on_reply c s id)

lt_of_leb : {m n : ℕ} → leb n m ≡ false → m < n
lt_of_leb h = ground arith

leb-false : {m n : ℕ} → m < n → leb n m ≡ false
leb-false h = ground arith

on_reply_match :
    (c : Px4Msgs) (s : RegistrationSettings) (id : ℕ) (r : ExtComponentReply)
    → matches_request c s id r ≡ true
    → on_reply c s id r ≡ some r
unfolding on_reply
on_reply_match c s id r h = rw h

none≢some {ℓ} : {A : Type ℓ} {a : A} → none ≡ some a → ⊥
none≢some h = cc

on_reply-some :
    (c : Px4Msgs) (s : RegistrationSettings) (id : ℕ) (m r : ExtComponentReply)
    → on_reply c s id m ≡ some r
    → (matches_request c s id r ≡ true) × (m ≡ r)
unfolding on_reply
on_reply-some c s id m r h = elim (Bool-cases (matches_request c s id m)) [
  | inl e ↦ let same = some-injective m r (rw e at h) in ((rw (← same) e), same)
  | inr e ↦ absurd (none≢some (rw e at h))
]

matches_request-fields :
    (c : Px4Msgs) (s : RegistrationSettings) (id : ℕ) (r : ExtComponentReply)
    → matches_request c s id r ≡ true
    → (c_string (take (c.name_size - 1) r.name) ≡ c_string s.name) × (r.request_id ≡ id)
unfolding matches_request
matches_request-fields c s id r h =
    let same = same_bytes→eq (c_string (take (c.name_size - 1) r.name)) (c_string s.name) in
    ground (arith, same)

-- What a registration keeps of a reply.
abbrev pub details : RegistrationSettings → ExtComponentReply → UnregisterExtComponent
details s r = record {
  name = c_string s.name;
  arming_check_id = r.arming_check_id;
  mode_id = r.mode_id;
  mode_executor_id = r.mode_executor_id;
}

accept_reply_registered :
    (s : RegistrationSettings) (r : ExtComponentReply) (g : Registration)
    → g.registered ≡ false
    → (accept_reply s r g).registered ≡ true
    → (r.success ≡ true)
      × (r.px4_ros2_api_version ≡ latest_px4_ros2_api_version)
      × ((accept_reply s r g).unregister_ext_component ≡ details s r)
unfolding accept_reply
accept_reply_registered s r g idle h = ground arith

module _ (c : Px4Msgs) (s : RegistrationSettings) (id : ℕ)
    (waits : ℕ → List (Wait ExtComponentReply)) (g : Registration) where
  -- A name that does not fit is refused before anything is sent.
  pub do_register_too_long :
      c.name_size ≤ length s.name → do_register c s id waits g ≡ (g, false, 0)
  unfolding do_register
  do_register_too_long h = ground arith

  -- A name that fits is sent.
  abbrev Fits : Type 0
  Fits = length s.name < c.name_size

  do_register_sent :
      Fits
      → do_register c s id waits g ≡ (
          let r = request (on_reply c s id) max_requests 0 waits in
          let g' = finish s r.0 g in (g', g'.registered, r.1))
  unfolding do_register
  do_register_sent h = rw (leb-false h)

  -- For a name that fits, the first reply that matches the request decides, in whichever of the
  -- five attempts it comes, and whatever foreign replies came before it: the registration takes
  -- its ids exactly when it reports success under the same version of the interface, and no
  -- further request is published.
  pub do_register_replied :
      (k : ℕ) (before after : List (Wait ExtComponentReply)) (r : ExtComponentReply)
      → Fits
      → k < max_requests
      → ((i : ℕ) → i < k → All (Foreign c s id) (waits i))
      → waits k ≡ before ++ taken r ∷ after
      → All (Foreign c s id) before
      → matches_request c s id r ≡ true
      → do_register c s id waits g ≡ (accept_reply s r g, (accept_reply s r g).registered, suc k)
  do_register_replied k before after r fits hk earlier e foreign m =
      do_register_sent fits
      ∙ rw (
          request_first (on_reply c s id) k 5 waits before after r r hk earlier e foreign
            (on_reply_match c s id r m))

  -- If the name fits and no reply ever matches, the request goes out five times and nothing
  -- changes.
  pub do_register_timeout :
      Fits
      → ((i : ℕ) → All (Foreign c s id) (waits i))
      → do_register c s id waits g ≡ (g, g.registered, max_requests)
  do_register_timeout fits foreign =
      do_register_sent fits ∙ rw (request-none (on_reply c s id) 5 waits foreign)

  -- The reply that registered the component: it was taken in an attempt, and it is meant for this
  -- request.
  abbrev pub Accepted : ℕ → ExtComponentReply → Type 0
  Accepted i r =
      (before : List (Wait ExtComponentReply)) × (after : List (Wait ExtComponentReply)) × (i
        < max_requests)
      × (waits i ≡ before ++ taken r ∷ after)
      × (c_string (take (c.name_size - 1) r.name) ≡ c_string s.name)
      × (r.request_id ≡ id)
      × (r.success ≡ true)
      × (r.px4_ros2_api_version ≡ latest_px4_ros2_api_version)

  finish_sound :
      g.registered ≡ false
      → (o : Option ExtComponentReply) → (request (on_reply c s id) max_requests 0 waits).0 ≡ o
      → (finish s o g).registered ≡ true
      → (i : ℕ) × (r : ExtComponentReply) × Accepted i r
        × ((finish s o g).unregister_ext_component ≡ details s r)
  finish_sound idle none e h = absurd (false≢true (sym idle ∙ h))
  finish_sound idle (some r) e h =
      let (i, m, before, after, attempt, place, taking) =
        request_taken (on_reply c s id) max_requests 0 waits r e in
      let (matches, same) = on_reply-some c s id m r taking in
      let (name, request_id) = matches_request-fields c s id r matches in
      let (ok, version, stored) = accept_reply_registered s r g idle h in
      (i, r, (before, after, omega arith, rw same at place, name, request_id, ok, version), stored)

  -- A component that was not registered is registered only by a reply that was taken in one of the
  -- five attempts, carries its name (both read as C strings) and the request id, reports success
  -- and has the library's interface version; the registration then holds the ids of that reply,
  -- and the name.
  pub do_register_sound :
      g.registered ≡ false
      → (do_register c s id waits g).1 ≡ true
      → (i : ℕ) × (r : ExtComponentReply) × Accepted i r
        × ((do_register c s id waits g).0.unregister_ext_component ≡ details s r)
  do_register_sound idle h = elim (Bool-cases (leb c.name_size (length s.name))) [
    | inl long ↦ absurd (false≢true (rw (do_register_too_long (leb→le _ _ long)) at h))
    | inr fits ↦
        let sent = do_register_sent (lt_of_leb fits) in
        rw sent
          (finish_sound idle (request (on_reply c s id) max_requests 0 waits).0 refl (rw sent at h))
  ]
