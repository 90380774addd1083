-- ===== src/MessageCompatibility/Hash.antt =====
-- The 32-bit FNV-1a hash of px4_ros2_cpp/src/components/message_compatibility_check.cpp. A text is
-- the list of its bytes. Whether `char` is signed depends on the platform and is an argument.
pub mod Laws
use Prim.Native.Nat.{bit_xor}
use px4_ros.Base.{
  ℕ, ◌+◌, ◌*◌, ◌%◌, ◌^◌, ◌≡◌, refl, Bool, true, false, ◌&&◌, List, [], ◌∷◌, leb, ◌==◌,
  if◌then◌else◌,
}

-- `kVal32Const` and `kPrime32Const`
abbrev pub val32_const : ℕ
val32_const = 0x811c9dc5

abbrev pub prime32_const : ℕ
prime32_const = 0x1000193

-- `static_cast<uint32_t>(c)` of a `char`: a signed one is extended by its sign.
unfoldable pub char_to_uint32 : Bool → ℕ → ℕ
char_to_uint32 signed_char c = if signed_char && leb 128 c then c + 0xffffff00 else c

-- One round: `(value ^ c) * kPrime32Const`.
pub hash_round : Bool → ℕ → ℕ → ℕ
unfolding char_to_uint32
hash_round signed_char c value =
    bit_xor value (char_to_uint32 signed_char c) * prime32_const % 2 ^ 32

-- `hash32Fnv1aConst`, which stops at the first NUL, also at one inside of the text.
unfoldable pub hash32_fnv1a_const : Bool → List ℕ → ℕ → ℕ
unfolding hash_round
hash32_fnv1a_const signed_char [] value = value
hash32_fnv1a_const signed_char (c ∷ str) value =
    let rest = hash32_fnv1a_const signed_char str (hash_round signed_char c value) in
    if c == 0 then value else rest

-- The published test vector for the text "a".
hash_a : hash32_fnv1a_const true (97 ∷ []) val32_const ≡ 0xe40c292c
unfolding hash32_fnv1a_const
hash_a = refl
