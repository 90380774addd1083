-- ===== src/MessageCompatibility/Zenoh.antt =====
-- px4_ros2_cpp/src/components/message_compatibility_check.cpp, the check under Zenoh: the hashes
-- of the endpoints on the graph against those of the local type supports, which are arguments.
pub mod Named
pub mod Laws
use px4_ros.Base.{
  ℕ, Bool, true, false, not, ◌&&◌, List, [], ◌∷◌, ◌++◌, Option, none, some, ◌==◌, if◌then◌else◌,
  is_empty,
}
use px4_ros.Registration.{same_bytes}

-- `rosidl_type_hash_t`
pub record TypeHash : Type 0 where
  pub version : ℕ
  pub value : List ℕ

-- `typeHashIsEqual`; the values have one size.
unfoldable pub type_hash_is_equal : TypeHash → TypeHash → Bool
unfolding same_bytes
type_hash_is_equal a b = a.version == b.version && same_bytes a.value b.value

-- What the node tells of the graph, and the hash function of a type's support, where it has one:
-- it may give no hash.
pub record Graph : Type 0 where
  pub topics_and_types : List (List ℕ × List (List ℕ))
  pub publishers : List ℕ → List TypeHash
  pub subscriptions : List ℕ → List TypeHash
  pub type_support : List ℕ → Option (Option TypeHash)

-- The hash of the last endpoint differs from that of the type support, or there is none.
unfoldable pub hash_differs : Option TypeHash → TypeHash → List TypeHash → Bool
unfolding type_hash_is_equal
hash_differs none pub_hash infos = true
hash_differs (some hash) pub_hash [] = not (type_hash_is_equal hash pub_hash)
hash_differs (some hash) pub_hash (info ∷ infos) = hash_differs (some hash) info infos

unfoldable pub endpoints_mismatch : Option (Option TypeHash) → List TypeHash → Bool
unfolding hash_differs
endpoints_mismatch support [] = false
endpoints_mismatch none (info ∷ infos) = false
endpoints_mismatch (some hash) (info ∷ infos) = hash_differs hash info infos

-- One side of a topic.
unfoldable pub check_side : Bool → List ℕ → Bool × List (List ℕ) → Bool × List (List ℕ)
check_side mismatch topic (ret, mismatched) =
    if mismatch then (false, mismatched ++ topic ∷ []) else (ret, mismatched)

module _ (g : Graph) where
  -- The inner loop, over the types of a topic.
  unfoldable pub check_types : List ℕ → List (List ℕ) → Bool × List (List ℕ) → Bool × List (List ℕ)
  check_types topic [] r = r
  check_types topic (t ∷ ts) r = check_types topic ts (
      check_side (endpoints_mismatch (g.type_support t) (g.subscriptions topic)) topic
        (check_side (endpoints_mismatch (g.type_support t) (g.publishers topic)) topic r))

  unfoldable pub check_topics :
      List (List ℕ × List (List ℕ)) → Bool × List (List ℕ) → Bool × List (List ℕ)
  check_topics [] r = r
  check_topics ((topic, types) ∷ rest) r = check_topics rest (check_types topic types r)

-- The Zenoh branch of `messageCompatibilityCheck`.
unfoldable pub zenoh_check : Graph → Bool × List (List ℕ)
zenoh_check g = check_topics g g.topics_and_types (true, [])
