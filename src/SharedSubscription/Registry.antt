-- ===== src/SharedSubscription/Registry.antt =====
-- The table of instances: what its order on keys gives, and that no instance is left unused.
use px4_ros.Base.{
  ℕ, ◌<◌, ◌≡◌, refl, true, false, List, [], ◌∷◌, arith, Bool-cases, inl, inr, is_empty,
}
use px4_ros.SharedSubscription.{
  Key, less_bytes, key_less, Subscription, equivalent, create, destroy, emplace, register_callback,
  new_subscription,
}

-- The order on keys is no order: of two keys with the smaller node and the larger topic name on
-- one side, each is less than the other.
pub key_less_both :
    (a b : Key)
    → a.node < b.node
    → less_bytes b.topic_name a.topic_name ≡ true
    → (key_less a b ≡ true) × (key_less b a ≡ true)
unfolding key_less
key_less_both a b h k = ground arith

less_bytes_asym : (xs ys : List ℕ) → less_bytes xs ys ≡ true → less_bytes ys xs ≡ false
unfolding less_bytes
less_bytes_asym [] [] h = cc
less_bytes_asym [] (y ∷ ys) h = refl
less_bytes_asym (x ∷ xs) [] h = cc
less_bytes_asym (x ∷ xs) (y ∷ ys) h = ground (arith, less_bytes_asym xs ys)

less_bytes_trans :
    (xs ys zs : List ℕ)
    → less_bytes xs ys ≡ true
    → less_bytes ys zs ≡ true
    → less_bytes xs zs ≡ true
unfolding less_bytes
less_bytes_trans xs ys [] h k = k
less_bytes_trans [] ys (z ∷ zs) h k = refl
less_bytes_trans (x ∷ xs) [] (z ∷ zs) h k = cc
less_bytes_trans (x ∷ xs) (y ∷ ys) (z ∷ zs) h k = ground (arith, less_bytes_trans xs ys zs)

-- Among keys of one node, the order on keys is asymmetric and transitive.
pub key_less_one_node :
    (a b c : Key)
    → a.node ≡ b.node
    → b.node ≡ c.node
    → (key_less a b ≡ true → key_less b a ≡ false)
      × (key_less a b ≡ true → key_less b c ≡ true → key_less a c ≡ true)
unfolding key_less
key_less_one_node a b c e f = (
  ground (arith, less_bytes_asym a.topic_name b.topic_name),
  ground (arith, less_bytes_trans a.topic_name b.topic_name c.topic_name),
)

module _ {ℓ} {K : Type ℓ} where
  -- Every instance in the table has a callback.
  abbrev pub InUse : List (Key × Subscription K) → Type 0
  InUse [] = Unit {0}
  InUse ((k, s) ∷ rest) = (is_empty s.callbacks ≡ false) × InUse rest

  emplace-ne-nil : (t : ℕ) (c : K) (cs : List (ℕ × K)) → is_empty (emplace t c cs) ≡ false
  unfolding emplace
  emplace-ne-nil t c [] = refl
  emplace-ne-nil t c ((u, d) ∷ rest) = ground arith

  -- If every instance in the table has a callback, so does every one after a handle is created.
  pub create-InUse :
      (key : Key) (c : K) (table : List (Key × Subscription K))
      → InUse table
      → InUse (create key c table)
  unfolding create register_callback new_subscription emplace
  create-InUse key c [] h = (refl, tt)
  create-InUse key c ((k, s) ∷ rest) h = elim (Bool-cases (equivalent key k)) [
    | inl e ↦ rw (e, create) (emplace-ne-nil s.next_token c s.callbacks, h.1)
    | inr e ↦ rw (e, create) (h.0, create-InUse key c rest h.1)
  ]

  -- If every instance in the table has a callback, so does every one after a handle is destroyed.
  pub destroy-InUse :
      (key : Key) (token : ℕ) (table : List (Key × Subscription K))
      → InUse table
      → InUse (destroy key token table)
  unfolding destroy
  destroy-InUse key token [] h = tt
  destroy-InUse key token ((k, s) ∷ rest) h = ground (arith, destroy-InUse key token rest h.1)
