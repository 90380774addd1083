-- ===== src/SharedSubscription/Order.antt =====
-- Callbacks run in the order of their registration.
use px4_ros.Base.{ℕ, suc, ◌+◌, ◌<◌, ◌≤◌, ◌≡◌, refl, List, [], ◌∷◌, ◌++◌, arith}
use native.Mathlib.Nat.{mod-eq_of_lt}
use native.Mathlib.Numerals.{add-one}
use px4_ros.SharedSubscription.{
  Subscription, emplace, erase, register_callback, unregister_callback, unsigned_mod,
}

module _ {ℓ} {K : Type ℓ} where
  -- Tokens rise along the list, from `low` on and below `high`.
  abbrev pub Rising : ℕ → ℕ → List (ℕ × K) → Type 0
  Rising low high [] = Unit {0}
  Rising low high ((t, c) ∷ rest) = (low ≤ t) × (t < high) × Rising (suc t) high rest

  pub record IsOrdered (s : Subscription K) : Type 0 where
    pub rising : Rising 0 s.next_token s.callbacks

  emplace_last :
      (low high : ℕ) (callback : K) (cs : List (ℕ × K))
      → Rising low high cs
      → emplace high callback cs ≡ cs ++ (high, callback) ∷ []
  unfolding emplace
  emplace_last low high callback [] h = refl
  emplace_last low high callback ((t, c) ∷ rest) h =
      ground (arith, emplace_last (suc t) high callback rest h.2)

  Rising-append :
      (low high : ℕ) (callback : K) (cs : List (ℕ × K))
      → low ≤ high
      → Rising low high cs
      → Rising low (suc high) (cs ++ (high, callback) ∷ [])
  Rising-append low high callback [] l h = (l, omega arith, tt)
  Rising-append low high callback ((t, c) ∷ rest) l h =
      (h.0, omega (arith, h.1), Rising-append (suc t) high callback rest h.1 h.2)

  Rising-weaken :
      (low low' high : ℕ) (cs : List (ℕ × K))
      → low' ≤ low
      → Rising low high cs
      → Rising low' high cs
  Rising-weaken low low' high [] l h = tt
  Rising-weaken low low' high ((t, c) ∷ rest) l h = (omega (arith, h.0), h.1, h.2)

  Rising-erase :
      (low high token : ℕ) (cs : List (ℕ × K))
      → Rising low high cs
      → Rising low high (erase token cs)
  unfolding erase
  Rising-erase low high token [] h = tt
  Rising-erase low high token ((t, c) ∷ rest) h = ground (
    arith,
    Rising-erase (suc t) high token rest h.2,
    Rising-weaken (suc t) low high rest (omega (arith, h.0)) h.2,
  )

  -- Registering a callback keeps the tokens in order, as long as the 32-bit counter does not wrap.
  pub register_callback-IsOrdered :
      (callback : K) (s : Subscription K)
      → s.next_token + 1 < unsigned_mod
      → IsOrdered s
      → IsOrdered (register_callback callback s).0
  unfolding register_callback
  register_callback-IsOrdered callback s room h =
      rw (mod-eq_of_lt room, emplace_last 0 s.next_token callback s.callbacks h.rising)
        (record {
          rising =
              rw add-one (Rising-append 0 s.next_token callback s.callbacks (omega arith) h.rising);
        })

  pub unregister_callback-IsOrdered :
      (token : ℕ) (s : Subscription K) → IsOrdered s → IsOrdered (unregister_callback token s)
  unfolding unregister_callback
  unregister_callback-IsOrdered token s h = record {
    rising = Rising-erase 0 s.next_token token s.callbacks h.rising;
  }
