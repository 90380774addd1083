-- ===== src/SharedSubscription.antt =====
-- px4_ros2_cpp/include/px4_ros2/components/shared_subscription.hpp: one subscription for a node and
-- a topic, whose callbacks run in the order of their registration. Callbacks are of a type `K` that
-- nothing is known of. A `std::map` is the list of its entries in the order of the keys; the
-- mutex, and the ROS subscription of an instance, are left out.
pub mod Order
pub mod Registry
use px4_ros.Base.{
  ℕ, suc, ◌+◌, ◌%◌, ◌^◌, Bool, true, false, not, ◌&&◌, ◌||◌, List, [], ◌∷◌, map, ltb, ◌==◌,
  if◌then◌else◌, is_empty, any,
}

-- `Key`: a node's address, and a topic name as bytes.
pub record Key : Type 0 where
  pub node : ℕ
  pub topic_name : List ℕ

-- `std::string`'s `operator<`.
unfoldable pub less_bytes : List ℕ → List ℕ → Bool
less_bytes xs [] = false
less_bytes [] (y ∷ ys) = true
less_bytes (x ∷ xs) (y ∷ ys) = ltb x y || (x == y && less_bytes xs ys)

-- `Key::operator<`
unfoldable pub key_less : Key → Key → Bool
key_less a b = ltb a.node b.node || less_bytes a.topic_name b.topic_name

module _ {ℓ} {K : Type ℓ} where
  -- `emplace` keeps the entry that is there.
  pub emplace : ℕ → K → List (ℕ × K) → List (ℕ × K)
  emplace token callback [] = (token, callback) ∷ []
  emplace token callback ((t, c) ∷ rest) =
      if ltb token t
      then (token, callback) ∷ (t, c) ∷ rest
      else if token == t
      then (t, c) ∷ rest
      else (t, c) ∷ emplace token callback rest

  -- `erase` by key.
  pub erase : ℕ → List (ℕ × K) → List (ℕ × K)
  erase token [] = []
  erase token ((t, c) ∷ rest) = if token == t then rest else (t, c) ∷ erase token rest

-- Two keys that neither precede the other are one key for a `std::map`.
abbrev pub equivalent : Key → Key → Bool
equivalent a b = not (key_less a b) && not (key_less b a)

-- An instance. Tokens are of type `unsigned`, 32 bits.
pub record Subscription {ℓ} (K : Type ℓ) : Type ℓ where
  pub next_token : ℕ
  pub callbacks : List (ℕ × K)

abbrev pub unsigned_mod : ℕ
unsigned_mod = 2 ^ 32

module _ {ℓ} {K : Type ℓ} where
  pub new_subscription : Subscription K
  new_subscription = record { next_token = 1; callbacks = [] }

  -- `registerOnUpdateCallback`: the new state and the token of the handle.
  pub register_callback : K → Subscription K → Subscription K × ℕ
  register_callback callback s = (
    record s {
      next_token = (s.next_token + 1) % unsigned_mod;
      callbacks = emplace s.next_token callback s.callbacks;
    },
    s.next_token,
  )

  -- `unregisterOnUpdateCallback`, when the handle is destroyed.
  pub unregister_callback : ℕ → Subscription K → Subscription K
  unregister_callback token s = record s { callbacks = erase token s.callbacks }

  -- `onUpdate`: the callbacks that are run, in order.
  pub on_update : Subscription K → List K
  on_update s = map (λ (e : ℕ × K). e.1) s.callbacks

  -- What one `create` does to the table of instances: it finds the instance or makes one, and
  -- registers the callback there.
  pub create : Key → K → List (Key × Subscription K) → List (Key × Subscription K)
  create key callback [] = (key, (register_callback callback new_subscription).0) ∷ []
  create key callback ((k, s) ∷ rest) =
      if equivalent key k
      then (k, (register_callback callback s).0) ∷ rest
      else (k, s) ∷ create key callback rest

  -- The deleter of a handle: it unregisters, and `cleanupInstanceIfUnused` drops an instance that
  -- has no callback left.
  pub destroy : Key → ℕ → List (Key × Subscription K) → List (Key × Subscription K)
  destroy key token [] = []
  destroy key token ((k, s) ∷ rest) =
      let s' = unregister_callback token s in
      if equivalent key k
      then (if is_empty s'.callbacks then rest else (k, s') ∷ rest)
      else (k, s) ∷ destroy key token rest
