-- ===== src/MessageCompatibility/Hash/Laws.antt =====
-- The hash stays a 32-bit number, continues over a concatenation, and tells apart two texts that
-- differ in one byte.
use Prim.Native.Nat.{bit_xor}
use px4_ros.Base.{
  ℕ, ◌*◌, ◌%◌, ◌^◌, ◌<◌, ◌≡◌, ◌≢◌, refl, sym, ap, ◌∙◌, inl, inr, Bool, false, List, [], ◌∷◌, ◌++◌,
  arith, ◌==◌, All, Bool-cases, bit_xor_left, bit_xor_right, bit_xor-lt,
}
use px4_ros.MessageCompatibility.Hash.{
  char_to_uint32, hash_round, hash32_fnv1a_const, prime32_const, val32_const,
}

-- A byte of a text, and a byte that does not end it.
abbrev pub IsByte : ℕ → Type 0
IsByte c = c < 256

abbrev pub IsChar : ℕ → Type 0
IsChar c = (0 < c) × (c < 256)

char_to_uint32-lt : (b : Bool) (c : ℕ) → c < 256 → char_to_uint32 b c < 2 ^ 32
unfolding char_to_uint32
char_to_uint32-lt b c h = ground arith

char_to_uint32_injective :
    (b : Bool) (x y : ℕ) → x < 256 → y < 256 → char_to_uint32 b x ≡ char_to_uint32 b y → x ≡ y
unfolding char_to_uint32
char_to_uint32_injective b x y p q e = ground arith

hash_round-lt : (b : Bool) (c value : ℕ) → hash_round b c value < 2 ^ 32
unfolding hash_round
hash_round-lt b c value = omega arith

-- The prime is odd, so that multiplying by it loses nothing: 0x359c449b is its inverse.
prime_undone : (a : ℕ) → a < 2 ^ 32 → a * prime32_const % 2 ^ 32 * 0x359c449b % 2 ^ 32 ≡ a
prime_undone a h = omega arith

prime_injective :
    (a b : ℕ)
    → a < 2 ^ 32
    → b < 2 ^ 32
    → a * prime32_const % 2 ^ 32 ≡ b * prime32_const % 2 ^ 32
    → a ≡ b
prime_injective a b p q e =
    sym (prime_undone a p) ∙ ap (λ (n : ℕ). n * 0x359c449b % 2 ^ 32) e ∙ prime_undone b q

word-lt :
    (b : Bool) (c value : ℕ)
    → c < 256
    → value < 2 ^ 32
    → bit_xor value (char_to_uint32 b c) < 2 ^ 32
word-lt b c value h k = bit_xor-lt 32 value (char_to_uint32 b c) k (char_to_uint32-lt b c h)

-- A round loses neither the value nor the byte.
hash_round_value :
    (b : Bool) (c v w : ℕ)
    → c < 256
    → v < 2 ^ 32
    → w < 2 ^ 32
    → hash_round b c v ≡ hash_round b c w
    → v ≡ w
unfolding hash_round
hash_round_value b c v w h p q e =
    bit_xor_left v w (char_to_uint32 b c)
      (prime_injective _ _ (word-lt b c v h p) (word-lt b c w h q) e)

hash_round_byte :
    (b : Bool) (x y v : ℕ)
    → x < 256
    → y < 256
    → v < 2 ^ 32
    → hash_round b x v ≡ hash_round b y v
    → x ≡ y
unfolding hash_round
hash_round_byte b x y v p q h e =
    char_to_uint32_injective b x y p q
      (bit_xor_right v _ _ (prime_injective _ _ (word-lt b x v p h) (word-lt b y v q h) e))

-- C
pub hash32_fnv1a_const-lt :
    (signed_char : Bool) (str : List ℕ) (value : ℕ)
    → value < 2 ^ 32
    → hash32_fnv1a_const signed_char str value < 2 ^ 32
unfolding hash32_fnv1a_const
hash32_fnv1a_const-lt b [] value h = h
hash32_fnv1a_const-lt b (c ∷ str) value h =
    ground (arith, hash32_fnv1a_const-lt b str (hash_round b c value) (hash_round-lt b c value))

-- The hash of the rest starts where that of the beginning ended.
pub hash32_fnv1a_const-append :
    (signed_char : Bool) (xs ys : List ℕ) (value : ℕ)
    → All IsChar xs
    → hash32_fnv1a_const signed_char (xs ++ ys) value
      ≡ hash32_fnv1a_const signed_char ys (hash32_fnv1a_const signed_char xs value)
unfolding hash32_fnv1a_const
hash32_fnv1a_const-append b [] ys value h = refl
hash32_fnv1a_const-append b (c ∷ xs) ys value h =
    ground (arith, h.0, hash32_fnv1a_const-append b xs ys (hash_round b c value) h.1)

-- Different values stay different over the same text.
hash32_fnv1a_const_value :
    (b : Bool) (str : List ℕ) (v w : ℕ)
    → All IsByte str
    → v < 2 ^ 32
    → w < 2 ^ 32
    → hash32_fnv1a_const b str v ≡ hash32_fnv1a_const b str w
    → v ≡ w
unfolding hash32_fnv1a_const
hash32_fnv1a_const_value b [] v w h p q e = e
hash32_fnv1a_const_value b (c ∷ str) v w h p q e = elim (Bool-cases (c == 0)) [
  | inl z ↦ rw z at e
  | inr n ↦ hash_round_value b c v w h.0 p q (
      hash32_fnv1a_const_value b str (hash_round b c v) (hash_round b c w) h.1 (hash_round-lt b c v)
        (hash_round-lt b c w) (rw n at e))
]

nonzero : (c : ℕ) → 0 < c → (c == 0) ≡ false
nonzero c h = ground arith

-- C
pub hash_one_byte :
    (signed_char : Bool) (before after : List ℕ) (x y : ℕ)
    → All IsChar before
    → IsChar x
    → IsChar y
    → All IsByte after
    → x ≢ y
    → hash32_fnv1a_const signed_char (before ++ x ∷ after) val32_const
      ≢ hash32_fnv1a_const signed_char (before ++ y ∷ after) val32_const
unfolding hash32_fnv1a_const
hash_one_byte b before after x y hb hx hy ha ne e = ne (
    hash_round_byte b x y v hx.1 hy.1 v-lt (
      hash32_fnv1a_const_value b after (hash_round b x v) (hash_round b y v) ha
        (hash_round-lt b x v) (hash_round-lt b y v) (rw (nonzero x hx.0, nonzero y hy.0) at tails)))
  where
    v : ℕ
    v = hash32_fnv1a_const b before val32_const

    v-lt : v < 2 ^ 32
    v-lt = hash32_fnv1a_const-lt b before val32_const (omega arith)

    tails : hash32_fnv1a_const b (x ∷ after) v ≡ hash32_fnv1a_const b (y ∷ after) v
    tails =
        sym (hash32_fnv1a_const-append b before (x ∷ after) val32_const hb)
        ∙ e
        ∙ hash32_fnv1a_const-append b before (y ∷ after) val32_const hb
