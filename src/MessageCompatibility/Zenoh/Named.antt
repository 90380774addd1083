-- ===== src/MessageCompatibility/Zenoh/Named.antt =====
-- The check under Zenoh names the topics that do not match, in order, and fails if there is one.
use px4_ros.Base.{
  ℕ, ◌≡◌, refl, sym, ap, ◌∙◌, Bool, true, false, List, [], ◌∷◌, ◌++◌, if◌then◌else◌, is_empty,
}
use mathlib.Core.List.{append-nil, append_assoc}
use px4_ros.MessageCompatibility.Zenoh.{
  Graph, endpoints_mismatch, check_side, check_types, check_topics, zenoh_check,
}

-- The specification: a topic is named once for each of its types and sides that do not match.
abbrev pub named : Bool → List ℕ → List (List ℕ)
named mismatch topic = if mismatch then topic ∷ [] else []

module _ (g : Graph) where
  unfoldable pub mismatches_of : List ℕ → List (List ℕ) → List (List ℕ)
  mismatches_of topic [] = []
  mismatches_of topic (t ∷ ts) =
      named (endpoints_mismatch (g.type_support t) (g.publishers topic)) topic
      ++ (named (endpoints_mismatch (g.type_support t) (g.subscriptions topic)) topic
          ++ mismatches_of topic ts)

  unfoldable pub mismatches : List (List ℕ × List (List ℕ)) → List (List ℕ)
  unfolding mismatches_of
  mismatches [] = []
  mismatches ((topic, types) ∷ rest) = mismatches_of topic types ++ mismatches rest

-- The result so far is true exactly while no topic was named.
abbrev report : List (List ℕ) → Bool × List (List ℕ)
report ms = (is_empty ms, ms)

is_empty_snoc : (ms : List (List ℕ)) (x : List ℕ) → is_empty (ms ++ x ∷ []) ≡ false
is_empty_snoc [] x = refl
is_empty_snoc (m ∷ ms) x = refl

check_side-report :
    (mismatch : Bool) (topic : List ℕ) (ms : List (List ℕ))
    → check_side mismatch topic (report ms) ≡ report (ms ++ named mismatch topic)
unfolding check_side
check_side-report true topic ms =
    ap (λ (b : Bool). (b, ms ++ topic ∷ [])) (sym (is_empty_snoc ms topic))
check_side-report false topic ms = ap report (sym (append-nil ms))

module _ (g : Graph) where
  check_types-report :
      (topic : List ℕ) (types ms : List (List ℕ))
      → check_types g topic types (report ms) ≡ report (ms ++ mismatches_of g topic types)
  unfolding check_types mismatches_of
  check_types-report topic [] ms = ap report (sym (append-nil ms))
  check_types-report topic (t ∷ ts) ms =
      ap (λ r. check_types g topic ts (check_side subs topic r)) (check_side-report pubs topic ms)
      ∙ ap (check_types g topic ts) (check_side-report subs topic (ms ++ named pubs topic))
      ∙ check_types-report topic ts ((ms ++ named pubs topic) ++ named subs topic)
      ∙ ap report (
          append_assoc (ms ++ named pubs topic) (named subs topic) (mismatches_of g topic ts)
          ∙ append_assoc ms (named pubs topic) (named subs topic ++ mismatches_of g topic ts))
    where
      pubs : Bool
      pubs = endpoints_mismatch (g.type_support t) (g.publishers topic)

      subs : Bool
      subs = endpoints_mismatch (g.type_support t) (g.subscriptions topic)

  check_topics-report :
      (topics : List (List ℕ × List (List ℕ))) (ms : List (List ℕ))
      → check_topics g topics (report ms) ≡ report (ms ++ mismatches g topics)
  unfolding check_topics mismatches
  check_topics-report [] ms = ap report (sym (append-nil ms))
  check_topics-report ((topic, types) ∷ rest) ms =
      ap (check_topics g rest) (check_types-report topic types ms)
      ∙ check_topics-report rest (ms ++ mismatches_of g topic types)
      ∙ ap report (append_assoc ms (mismatches_of g topic types) (mismatches g rest))

pub zenoh_check_named :
    (g : Graph)
    → zenoh_check g ≡ (is_empty (mismatches g g.topics_and_types), mismatches g g.topics_and_types)
unfolding zenoh_check
zenoh_check_named g = check_topics-report g g.topics_and_types []
