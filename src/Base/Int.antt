-- ===== src/Base/Int.antt =====
-- The C++ `int`, as an integer: the sources only step it by one and compare it with sizes.
use Prim.Native.Nat.{ℕ, suc, ◌-◌, ◌^◌}
use mathlib.Core.Bool.{Bool, true, false}
use Prim.Native.Nat.{zero}
use px4_ros.Base.Tests.{ltb, ◌==◌}

-- `negsuc n` is -(n + 1).
pub data ℤ : Type 0 where
  pos : ℕ → ℤ
  negsuc : ℕ → ℤ

-- `i + 1`
abbrev pub inc : ℤ → ℤ
inc (pos n) = pos (suc n)
inc (negsuc zero) = pos 0
inc (negsuc (suc n)) = negsuc n

-- `i - 1`
abbrev pub dec_int : ℤ → ℤ
dec_int (pos zero) = negsuc 0
dec_int (pos (suc n)) = pos n
dec_int (negsuc n) = negsuc (suc n)

-- `i == j`
abbrev pub eq_int : ℤ → ℤ → Bool
eq_int (pos m) (pos n) = m == n
eq_int (negsuc m) (negsuc n) = m == n
eq_int (pos m) (negsuc n) = false
eq_int (negsuc m) (pos n) = false

-- `i > j`
abbrev pub gt_int : ℤ → ℤ → Bool
gt_int (pos m) (pos n) = ltb n m
gt_int (pos m) (negsuc n) = true
gt_int (negsuc m) (pos n) = false
gt_int (negsuc m) (negsuc n) = ltb m n

-- `i < static_cast<int>(size)`
abbrev pub lt_size : ℤ → ℕ → Bool
lt_size (pos n) size = ltb n size
lt_size (negsuc n) size = true

-- The conversion of an `int` to a 64-bit `size_t`, as in `index >= items.size()`.
abbrev pub to_size : ℤ → ℕ
to_size (pos n) = n
to_size (negsuc n) = 2 ^ 64 - suc n
