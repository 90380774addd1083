-- ===== src/MessageCompatibility/Laws.antt =====
-- When the check succeeds, and what that says of the autopilot's definitions.
use mathlib.Core.Bool.{false≢true}
use mathlib.Core.Option.{some-injective}
use native.Mathlib.Nat.{add-zero, add-suc, suc-add}
use px4_ros.Base.{
  ℕ, suc, ◌+◌, ◌≡◌, refl, sym, ap, ◌∙◌, Bool, true, false, ◌&&◌, List, [], ◌∷◌, ◌++◌, Option, none,
  some, arith, ◌==◌, if◌then◌else◌, All, length, ◌>>=◌,
}
use px4_ros.Px4Msgs.{Px4Msgs}
use px4_ros.WaitLoop.{Wait}
use px4_ros.MessageCompatibility.{
  MessageCompatibilityTopic, Platform, Step, go_on, stop, expected_message_hash, on_reply,
  check_messages,
}
use px4_ros.MessageCompatibility.Requests.{
  MessageFormatResponse, FormatReply, got_reply, protocol_version_mismatch, request_message_format,
}

-- A reply that confirms the expected hash.
abbrev pub confirms : Option FormatReply → ℕ → Bool
confirms none expected = false
confirms (some protocol_version_mismatch) expected = false
confirms (some (got_reply r)) expected = r.success && r.message_hash == expected

-- How the rest of the check goes on from a reply.
abbrev continue :
    (Bool → List (List ℕ) → Option (Bool × List (List ℕ))) → Step → Option (Bool × List (List ℕ))
continue rest (go_on ret mismatched) = rest ret mismatched
continue rest stop = some (false, [])

and_false : (b : Bool) → (b && false) ≡ false
and_false true = refl
and_false false = refl

and_true : (b : Bool) → (b && true) ≡ b
and_true true = refl
and_true false = refl

and_assoc : (x y z : Bool) → ((x && y) && z) ≡ (x && (y && z))
and_assoc true y z = refl
and_assoc false y z = refl

-- A reply goes on with the result so far and its own, or it ends the check.
abbrev Goes : Bool → Bool → Step → Type 0
Goes ret confirmed (go_on ret' mismatched) = ret' ≡ (ret && confirmed)
Goes ret confirmed stop = confirmed ≡ false

on_reply-Goes :
    (name : List ℕ) (expected : ℕ) (o : Option FormatReply) (ret : Bool)
    (mismatched : List (List ℕ))
    → Goes ret (confirms o expected) (on_reply name expected o ret mismatched)
unfolding on_reply
on_reply-Goes name expected none ret mismatched = refl
on_reply-Goes name expected (some protocol_version_mismatch) ret mismatched = refl
on_reply-Goes name expected (some (got_reply r)) ret mismatched =
    cases r.success (r.message_hash == expected)
  where
    cases :
        (success same : Bool)
        → Goes ret (success && same) (
            if success
            then (if same then go_on ret mismatched else go_on false (mismatched ++ name ∷ []))
            else go_on false mismatched)
    cases true true = sym (and_true ret)
    cases true false = sym (and_false ret)
    cases false same = sym (and_false ret)

-- The result of one step and the rest.
continue_result :
    (ret confirmed others : Bool) (rest : Bool → List (List ℕ) → Option (Bool × List (List ℕ)))
    (s : Step)
    → Goes ret confirmed s
    → ((ret' : Bool) (mismatched : List (List ℕ))
        → (l : List (List ℕ)) × (rest ret' mismatched ≡ some (ret' && others, l)))
    → (l : List (List ℕ)) × (continue rest s ≡ some (ret && (confirmed && others), l))
continue_result ret confirmed others rest (go_on ret' mismatched) g h =
    let (l, e) = h ret' mismatched in
    (
      l,
      e
          ∙ ap (λ (b : Bool). some (b && others, l)) g
          ∙ ap (λ (b : Bool). some (b, l)) (and_assoc ret confirmed others),
    )
continue_result ret confirmed others rest stop g h =
    ([], ap (λ (b : Bool). some (b, [])) (sym (ap (λ b. ret && (b && others)) g ∙ and_false ret)))

-- A check that succeeds did not stop, and has succeeded so far.
continue_succeeds :
    (ret confirmed : Bool) (rest : Bool → List (List ℕ) → Option (Bool × List (List ℕ))) (s : Step)
    (l : List (List ℕ))
    → Goes ret confirmed s
    → continue rest s ≡ some (true, l)
    → (mismatched : List (List ℕ)) × (rest (ret && confirmed) mismatched ≡ some (true, l))
continue_succeeds ret confirmed rest (go_on ret' mismatched) l g h =
    (mismatched, ap (λ b. rest b mismatched) (sym g) ∙ h)
continue_succeeds ret confirmed rest stop l g h =
    absurd (false≢true (ap (λ (r : Bool × List (List ℕ)). r.0) (some-injective _ _ h)))

-- Inversion of a chain that gives something.
pub bind_some {ℓ κ} :
    {A : Type ℓ} {B : Type κ} (o : Option A) (f : A → Option B) {b : B}
    → (o >>= f) ≡ some b
    → (a : A) × (o ≡ some a) × (f a ≡ some b)
bind_some none f h = cc
bind_some (some a) f h = (a, refl, h)

pub and_both : (x y : Bool) → (x && y) ≡ true → (x ≡ true) × (y ≡ true)
and_both x y h = ground arith

module _ (c : Px4Msgs) (p : Platform) (waits : ℕ → ℕ → List (Wait MessageFormatResponse)) where
  abbrev pub reply : ℕ → MessageCompatibilityTopic → Option FormatReply
  reply k t = (request_message_format c t.topic_name (waits k)).0

  -- Every message, from number `k` on, is confirmed.
  abbrev pub all_confirmed :
      (MessageCompatibilityTopic → ℕ) → ℕ → List MessageCompatibilityTopic → Bool
  all_confirmed expected k [] = true
  all_confirmed expected k (t ∷ ts) =
      confirms (request_message_format c t.topic_name (waits k)).0 (expected t)
      && all_confirmed expected (suc k) ts

  -- One step of the loop, where the local hash is there.
  check_messages_step :
      (k : ℕ) (t : MessageCompatibilityTopic) (ts : List MessageCompatibilityTopic) (ret : Bool)
      (mismatched : List (List ℕ)) (expected : ℕ)
      → expected_message_hash p t ≡ some expected
      → check_messages c p waits k (t ∷ ts) ret mismatched
        ≡ continue
            (check_messages c p waits (suc k) ts)
            (on_reply t.topic_name expected (reply k t) ret mismatched)
  unfolding check_messages
  check_messages_step k t ts ret mismatched expected e =
      ap
        (λ o. o >>= λ x.
          continue (check_messages c p waits (suc k) ts)
            (on_reply t.topic_name x (reply k t) ret mismatched))
        e

  pub check_messages_result :
      (expected : MessageCompatibilityTopic → ℕ) (k : ℕ) (ts : List MessageCompatibilityTopic)
      (ret : Bool) (mismatched : List (List ℕ))
      → All (λ t. expected_message_hash p t ≡ some (expected t)) ts
      → (l : List (List ℕ)) × (check_messages c p waits k ts ret mismatched
          ≡ some (ret && all_confirmed expected k ts, l))
  unfolding check_messages
  check_messages_result expected k [] ret mismatched h =
      (mismatched, ap (λ (b : Bool). some (b, mismatched)) (sym (and_true ret)))
  check_messages_result expected k (t ∷ ts) ret mismatched h =
      let (l, e) =
        continue_result ret (confirms (reply k t) (expected t)) (all_confirmed expected (suc k) ts)
          (check_messages c p waits (suc k) ts)
          (on_reply t.topic_name (expected t) (reply k t) ret mismatched)
          (on_reply-Goes t.topic_name (expected t) (reply k t) ret mismatched)
          (λ ret' mismatched'. check_messages_result expected (suc k) ts ret' mismatched' h.1) in
      (l, check_messages_step k t ts ret mismatched (expected t) h.0 ∙ e)

  -- The first step of a check that succeeds.
  check_messages_succeeds :
      (k : ℕ) (t : MessageCompatibilityTopic) (ts : List MessageCompatibilityTopic) (ret : Bool)
      (mismatched l : List (List ℕ))
      → check_messages c p waits k (t ∷ ts) ret mismatched ≡ some (true, l)
      → (expected : ℕ) × (mismatched' : List (List ℕ)) × (expected_message_hash p t ≡ some expected)
        × (check_messages c p waits (suc k) ts (ret && confirms (reply k t) expected) mismatched'
            ≡ some (true, l))
  unfolding check_messages
  check_messages_succeeds k t ts ret mismatched l h =
      let (expected, e, q) =
        bind_some (expected_message_hash p t)
          (λ x.
            continue (check_messages c p waits (suc k) ts)
              (on_reply t.topic_name x (reply k t) ret mismatched))
          h in
      let (mismatched', r) =
        continue_succeeds ret (confirms (reply k t) expected) (check_messages c p waits (suc k) ts)
          (on_reply t.topic_name expected (reply k t) ret mismatched) l
          (on_reply-Goes t.topic_name expected (reply k t) ret mismatched) q in
      (expected, mismatched', e, r)

  check_messages_ret :
      (k : ℕ) (ts : List MessageCompatibilityTopic) (ret : Bool) (mismatched l : List (List ℕ))
      → check_messages c p waits k ts ret mismatched ≡ some (true, l)
      → ret ≡ true
  unfolding check_messages
  check_messages_ret k [] ret mismatched l h =
      ap (λ (r : Bool × List (List ℕ)). r.0) (some-injective _ _ h)
  check_messages_ret k (t ∷ ts) ret mismatched l h =
      let (expected, mismatched', e, q) = check_messages_succeeds k t ts ret mismatched l h in
      (and_both ret (confirms (reply k t) expected)
        (check_messages_ret (suc k) ts (ret && confirms (reply k t) expected) mismatched' l q)).0

  -- Every message of a check that succeeds was confirmed.
  pub check_messages_confirmed :
      (k : ℕ) (earlier later : List MessageCompatibilityTopic) (t : MessageCompatibilityTopic)
      (ret : Bool) (mismatched l : List (List ℕ))
      → check_messages c p waits k (earlier ++ t ∷ later) ret mismatched ≡ some (true, l)
      → (expected : ℕ) × (expected_message_hash p t ≡ some expected)
        × (confirms (reply (k + length earlier) t) expected ≡ true)
  check_messages_confirmed k [] later t ret mismatched l h =
      let (expected, mismatched', e, q) = check_messages_succeeds k t later ret mismatched l h in
      (
        expected,
        e,
        rw (add-zero k)
            (and_both ret (confirms (reply k t) expected) (
              check_messages_ret (suc k) later (ret && confirms (reply k t) expected) mismatched' l
                q)).1,
      )
  check_messages_confirmed k (s ∷ earlier) later t ret mismatched l h =
      let (expected, mismatched', e, q) =
        check_messages_succeeds k s (earlier ++ t ∷ later) ret mismatched l h in
      rw (add-suc k (length earlier), ← suc-add k (length earlier))
        (check_messages_confirmed (suc k) earlier later t (ret && confirms (reply k s) expected)
          mismatched' l q)
