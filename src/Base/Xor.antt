-- ===== src/Base/Xor.antt =====
-- Laws of the exclusive or of 32-bit words.
use Prim.Native.Nat.{
  ℕ, zero, suc, ◌+◌, ◌*◌, ◌/◌, ◌%◌, ◌≤◌, ◌<◌, bit_xor, digits, differ, bit_xor-bitwise,
}
use mathlib.Core.Path.{◌≡◌, refl, ◌∙◌}
use native.Mathlib.Omega.{arith}

abbrev xor_digits : ℕ → ℕ → ℕ → ℕ
xor_digits n a b = digits (λ b. b) differ n a b

xor_digits_fuel : (n m a b : ℕ) → a ≤ n → a ≤ m → xor_digits n a b ≡ xor_digits m a b
xor_digits_fuel zero zero a b p q = refl
xor_digits_fuel zero (suc m) zero b p q = refl
xor_digits_fuel zero (suc m) (suc a) b p q = absurd (omega arith)
xor_digits_fuel (suc n) zero zero b p q = refl
xor_digits_fuel (suc n) zero (suc a) b p q = absurd (omega arith)
xor_digits_fuel (suc n) (suc m) zero b p q = refl
xor_digits_fuel (suc n) (suc m) (suc a) b p q =
    omega (arith, xor_digits_fuel n m (suc a / 2) (b / 2) (omega arith) (omega arith))

zero-bit_xor : (b : ℕ) → bit_xor 0 b ≡ b
zero-bit_xor b = bit_xor-bitwise 0 b

bit_xor_step : (a b : ℕ) → bit_xor a b ≡ bit_xor (a / 2) (b / 2) * 2 + differ (a % 2) (b % 2)
bit_xor_step zero b = omega (arith, zero-bit_xor b, zero-bit_xor (b / 2))
bit_xor_step (suc a) b = omega (
  arith,
  bit_xor-bitwise (suc a) b,
  bit_xor-bitwise (suc a / 2) (b / 2),
  xor_digits_fuel a (suc a / 2) (suc a / 2) (b / 2) (omega arith) (omega arith),
)

differ-lt : (x y : ℕ) → x < 2 → y < 2 → differ x y < 2
differ-lt zero y p q = q
differ-lt (suc zero) zero p q = omega arith
differ-lt (suc zero) (suc zero) p q = omega arith
differ-lt (suc zero) (suc (suc y)) p q = absurd (omega arith)
differ-lt (suc (suc x)) y p q = absurd (omega arith)

differ_right : (x y z : ℕ) → x < 2 → y < 2 → z < 2 → differ x y ≡ differ x z → y ≡ z
differ_right zero y z p q r e = e
differ_right (suc zero) zero zero p q r e = refl
differ_right (suc zero) (suc zero) (suc zero) p q r e = refl
differ_right (suc zero) zero (suc z) p q r e = absurd (omega arith)
differ_right (suc zero) (suc y) zero p q r e = absurd (omega arith)
differ_right (suc zero) (suc (suc y)) z p q r e = absurd (omega arith)
differ_right (suc zero) (suc zero) (suc (suc z)) p q r e = absurd (omega arith)
differ_right (suc (suc x)) y z p q r e = absurd (omega arith)

differ_comm : (x y : ℕ) → x < 2 → y < 2 → differ x y ≡ differ y x
differ_comm zero zero p q = refl
differ_comm zero (suc zero) p q = refl
differ_comm zero (suc (suc y)) p q = absurd (omega arith)
differ_comm (suc zero) zero p q = refl
differ_comm (suc zero) (suc zero) p q = refl
differ_comm (suc zero) (suc (suc y)) p q = absurd (omega arith)
differ_comm (suc (suc x)) y p q = absurd (omega arith)

bit_xor_comm_fuel : (n a b : ℕ) → a ≤ n → b ≤ n → bit_xor a b ≡ bit_xor b a
bit_xor_comm_fuel zero zero zero p q = refl
bit_xor_comm_fuel zero (suc a) b p q = absurd (omega arith)
bit_xor_comm_fuel zero zero (suc b) p q = absurd (omega arith)
bit_xor_comm_fuel (suc n) a b p q = omega (
  arith,
  bit_xor_step a b,
  bit_xor_step b a,
  bit_xor_comm_fuel n (a / 2) (b / 2) (omega arith) (omega arith),
  differ_comm (a % 2) (b % 2) (omega arith) (omega arith),
)

bit_xor_comm : (a b : ℕ) → bit_xor a b ≡ bit_xor b a
bit_xor_comm a b = bit_xor_comm_fuel (a + b) a b (omega arith) (omega arith)

bit_xor_right_fuel : (n a b c : ℕ) → b ≤ n → c ≤ n → bit_xor a b ≡ bit_xor a c → b ≡ c
bit_xor_right_fuel zero a zero zero p q e = refl
bit_xor_right_fuel zero a (suc b) c p q e = absurd (omega arith)
bit_xor_right_fuel zero a zero (suc c) p q e = absurd (omega arith)
bit_xor_right_fuel (suc n) a b c p q e = omega (
  arith,
  bit_xor_right_fuel n (a / 2) (b / 2) (c / 2) (omega arith) (omega arith) (halves.0),
  differ_right (a % 2) (b % 2) (c % 2) (omega arith) (omega arith) (omega arith) halves.1,
)
  where
    halves :
        (bit_xor (a / 2) (b / 2) ≡ bit_xor (a / 2) (c / 2))
        × (differ (a % 2) (b % 2) ≡ differ (a % 2) (c % 2))
    halves = omega (
      arith,
      bit_xor_step a b,
      bit_xor_step a c,
      differ-lt (a % 2) (b % 2) (omega arith) (omega arith),
      differ-lt (a % 2) (c % 2) (omega arith) (omega arith),
    )

pub bit_xor_right : (a b c : ℕ) → bit_xor a b ≡ bit_xor a c → b ≡ c
bit_xor_right a b c = bit_xor_right_fuel (b + c) a b c (omega arith) (omega arith)

pub bit_xor_left : (a b c : ℕ) → bit_xor a c ≡ bit_xor b c → a ≡ b
bit_xor_left a b c e = bit_xor_right c a b (bit_xor_comm c a ∙ e ∙ bit_xor_comm b c)

abbrev pub pow2 : ℕ → ℕ
pow2 zero = 1
pow2 (suc k) = pow2 k + pow2 k

pub bit_xor-lt : (k a b : ℕ) → a < pow2 k → b < pow2 k → bit_xor a b < pow2 k
bit_xor-lt zero zero zero p q = omega arith
bit_xor-lt zero (suc a) b p q = absurd (omega arith)
bit_xor-lt zero zero (suc b) p q = absurd (omega arith)
bit_xor-lt (suc k) a b p q = omega (
  arith,
  bit_xor_step a b,
  bit_xor-lt k (a / 2) (b / 2) (omega arith) (omega arith),
  differ-lt (a % 2) (b % 2) (omega arith) (omega arith),
)
