-- ===== src/MessageCompatibility/Zenoh/Laws.antt =====
-- The check under Zenoh succeeds exactly if the endpoints of all topics agree with the local types.
use px4_ros.Base.{
  ℕ, Option, none, some, not, All, arith, ◌↔◌, ◌≡◌, refl, sym, ap, ◌∙◌, Bool, true, false, List, [],
  ◌∷◌, ◌++◌, is_empty,
}
use mathlib.Core.Bool.{true≢false}
use px4_ros.Registration.{same_bytes}
use px4_ros.Registration.Laws.{same_bytes→eq}
use px4_ros.MessageCompatibility.Zenoh.{
  TypeHash, type_hash_is_equal, hash_differs, Graph, endpoints_mismatch, zenoh_check,
}
use px4_ros.MessageCompatibility.Zenoh.Named.{named, mismatches_of, mismatches, zenoh_check_named}

-- If there is a type support with a hash function, then it gives the hash of the last endpoint.
abbrev pub Agrees : Option (Option TypeHash) → List TypeHash → Type 0
Agrees support infos =
    (before : List TypeHash) (info : TypeHash) (hash : Option TypeHash)
    → infos ≡ before ++ info ∷ []
    → support ≡ some hash
    → hash ≡ some info

-- Both sides of each topic agree, for each of its types.
abbrev pub AgreesOn : Graph → List ℕ → List ℕ → Type 0
AgreesOn g topic type =
    Agrees (g.type_support type) (g.publishers topic)
    × Agrees (g.type_support type) (g.subscriptions topic)

abbrev pub AllAgree : Graph → List (List ℕ × List (List ℕ)) → Type 0
AllAgree g = All (λ t. All (AgreesOn g t.0) t.1)

same_bytes_self : (xs : List ℕ) → same_bytes xs xs ≡ true
unfolding same_bytes
same_bytes_self [] = refl
same_bytes_self (x ∷ xs) = ground (arith, same_bytes_self xs)

type_hash_is_equal-fields :
    (a b : TypeHash) → type_hash_is_equal a b ≡ true → (a.version ≡ b.version) × (a.value ≡ b.value)
unfolding type_hash_is_equal
type_hash_is_equal-fields a b h = let same = same_bytes→eq a.value b.value in ground (arith, same)

type_hash_is_equal-eq : (a b : TypeHash) → type_hash_is_equal a b ≡ true → a ≡ b
type_hash_is_equal-eq a b h i = record {
  version = (type_hash_is_equal-fields a b h).0 i;
  value = (type_hash_is_equal-fields a b h).1 i;
}

type_hash_is_equal_self : (a : TypeHash) → type_hash_is_equal a a ≡ true
unfolding type_hash_is_equal
type_hash_is_equal_self a = ground (arith, same_bytes_self a.value)

-- The endpoint that the loop remembers is the last one.
hash_differs-last :
    (hash : TypeHash) (info : TypeHash) (before : List TypeHash) (last : TypeHash)
    → hash_differs (some hash) info (before ++ last ∷ []) ≡ not (type_hash_is_equal hash last)
unfolding hash_differs
hash_differs-last hash info [] last = refl
hash_differs-last hash info (x ∷ before) last = hash_differs-last hash x before last

no_endpoints : (support : Option (Option TypeHash)) → endpoints_mismatch support [] ≡ false
unfolding endpoints_mismatch
no_endpoints none = refl
no_endpoints (some hash) = refl

no_support : (x : TypeHash) (xs : List TypeHash) → endpoints_mismatch none (x ∷ xs) ≡ false
unfolding endpoints_mismatch
no_support x xs = refl

is_true : (b : Bool) → not b ≡ false → b ≡ true
is_true true h = refl
is_true false h = cc

endpoints_mismatch-last :
    (hash : TypeHash) (before : List TypeHash) (last : TypeHash)
    → endpoints_mismatch (some (some hash)) (before ++ last ∷ [])
      ≡ not (type_hash_is_equal hash last)
unfolding endpoints_mismatch hash_differs
endpoints_mismatch-last hash [] last = refl
endpoints_mismatch-last hash (x ∷ before) last = hash_differs-last hash x before last

no_hash :
    (before : List TypeHash) (last : TypeHash)
    → endpoints_mismatch (some none) (before ++ last ∷ []) ≡ true
unfolding endpoints_mismatch hash_differs
no_hash [] last = refl
no_hash (x ∷ before) last = refl

-- A list that is not empty has a last element.
last_of :
    (x : TypeHash) (xs : List TypeHash)
    → (before : List TypeHash) × (last : TypeHash) × (x ∷ xs ≡ before ++ last ∷ [])
last_of x [] = ([], x, refl)
last_of x (y ∷ ys) = let (before, last, e) = last_of y ys in (x ∷ before, last, ap (◌∷◌ x) e)

matching_last :
    (hash : Option TypeHash) (before : List TypeHash) (last : TypeHash)
    → endpoints_mismatch (some hash) (before ++ last ∷ []) ≡ false
    → hash ≡ some last
matching_last none before last h = absurd (true≢false (sym (no_hash before last) ∙ h))
matching_last (some hash) before last h = ap some (
    type_hash_is_equal-eq hash last
      (is_true (type_hash_is_equal hash last) (sym (endpoints_mismatch-last hash before last) ∙ h)))

endpoints_mismatch-Agrees :
    (support : Option (Option TypeHash)) (infos : List TypeHash)
    → (endpoints_mismatch support infos ≡ false) ↔ Agrees support infos
endpoints_mismatch-Agrees support infos = (to, from support infos)
  where
    to : endpoints_mismatch support infos ≡ false → Agrees support infos
    to h before info hash p q = matching_last hash before info (
        sym (ap (endpoints_mismatch (some hash)) p)
        ∙ sym (ap (λ o. endpoints_mismatch o infos) q)
        ∙ h)

    from :
        (support : Option (Option TypeHash)) (infos : List TypeHash)
        → Agrees support infos
        → endpoints_mismatch support infos ≡ false
    from support [] h = no_endpoints support
    from none (x ∷ xs) h = no_support x xs
    from (some hash) (x ∷ xs) h =
        let (before, last, e) = last_of x xs in
        ap (λ o. endpoints_mismatch (some o) (x ∷ xs)) (h before last hash e refl)
        ∙ ap (endpoints_mismatch (some (some last))) e
        ∙ endpoints_mismatch-last last before last
        ∙ ap not (type_hash_is_equal_self last)

named_empty :
    (b : Bool) (topic : List ℕ) (rest : List (List ℕ))
    → (is_empty (named b topic ++ rest) ≡ true) ↔ ((b ≡ false) × (is_empty rest ≡ true))
named_empty true topic rest = ((λ h. cc), (λ h. cc))
named_empty false topic rest = ((λ h. (refl, h)), (λ h. h.1))

append_empty :
    (xs ys : List (List ℕ))
    → (is_empty (xs ++ ys) ≡ true) ↔ ((is_empty xs ≡ true) × (is_empty ys ≡ true))
append_empty [] ys = ((λ h. (refl, h)), (λ h. h.1))
append_empty (x ∷ xs) ys = ((λ h. cc), (λ h. cc))

module _ (g : Graph) where
  mismatches_of-Agrees :
      (topic : List ℕ) (types : List (List ℕ))
      → (is_empty (mismatches_of g topic types) ≡ true) ↔ All (AgreesOn g topic) types
  unfolding mismatches_of
  mismatches_of-Agrees topic [] = ((λ h. tt), (λ h. refl))
  mismatches_of-Agrees topic (t ∷ ts) =
      let subs = endpoints_mismatch (g.type_support t) (g.subscriptions topic) in
      let rest = mismatches_of g topic ts in
      let (p_to, p_from) =
        named_empty (endpoints_mismatch (g.type_support t) (g.publishers topic)) topic
          (named subs topic ++ rest) in
      let (s_to, s_from) = named_empty subs topic rest in
      let (r_to, r_from) = mismatches_of-Agrees topic ts in
      let (a_to, a_from) = endpoints_mismatch-Agrees (g.type_support t) (g.publishers topic) in
      let (b_to, b_from) = endpoints_mismatch-Agrees (g.type_support t) (g.subscriptions topic) in
      (
        (λ h. let (p, q) = p_to h in let (s, r) = s_to q in ((a_to p, b_to s), r_to r)),
        (λ h. p_from (a_from h.0.0, s_from (b_from h.0.1, r_from h.1))),
      )

  mismatches-AllAgree :
      (topics : List (List ℕ × List (List ℕ)))
      → (is_empty (mismatches g topics) ≡ true) ↔ AllAgree g topics
  unfolding mismatches
  mismatches-AllAgree [] = ((λ h. tt), (λ h. refl))
  mismatches-AllAgree ((topic, types) ∷ rest) =
      let (x_to, x_from) = append_empty (mismatches_of g topic types) (mismatches g rest) in
      let (t_to, t_from) = mismatches_of-Agrees topic types in
      let (r_to, r_from) = mismatches-AllAgree rest in
      ((λ h. let (p, q) = x_to h in (t_to p, r_to q)), (λ h. x_from (t_from h.0, r_from h.1)))

  -- Under Zenoh the check succeeds exactly if it names no topic, and exactly if for each type of
  -- each topic, on the publishers' and on the subscribers' side: if there is an endpoint and the
  -- type's support has a hash function, then that function gives a hash, and the last endpoint has
  -- the same one.
  pub zenoh_check_lem :
      ((zenoh_check g).0 ≡ is_empty (zenoh_check g).1)
      × (((zenoh_check g).0 ≡ true) ↔ AllAgree g g.topics_and_types)
  zenoh_check_lem =
      let named = zenoh_check_named g in
      let (to, from) = mismatches-AllAgree g.topics_and_types in
      (
        ap (λ (r : Bool × List (List ℕ)). r.0) named
            ∙ sym (ap (λ (r : Bool × List (List ℕ)). is_empty r.1) named),
        (
          (λ h. to (sym (ap (λ (r : Bool × List (List ℕ)). r.0) named) ∙ h)),
          (λ h. ap (λ (r : Bool × List (List ℕ)). r.0) named ∙ from h),
        ),
      )
