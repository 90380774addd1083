-- ===== src/Base/Float.antt =====
-- IEEE 754 binary32 and binary64 values as their bit patterns, with the comparisons that the
-- sources make. The sources' `float` arithmetic is not modelled.
use Prim.Native.Nat.{ℕ, zero, suc, ◌+◌, ◌-◌, ◌*◌, ◌%◌, ◌^◌}
use mathlib.Core.Bool.{Bool, not, ◌&&◌, ◌||◌}
use mathlib.Core.Path.{◌≡◌, refl}
use px4_ros.Base.Tests.{ltb, leb, ◌==◌, if◌then◌else◌}

abbrev pub F32 : Type 0
F32 = ℕ

abbrev pub F64 : Type 0
F64 = ℕ

-- The quiet NaN of the `NAN` macro.
abbrev pub nan32 : F32
nan32 = 0x7fc00000

abbrev pub nan64 : F64
nan64 = 0x7ff8000000000000

-- `std::isnan`: the magnitude is above that of infinity.
unfoldable pub is_nan32 : F32 → Bool
is_nan32 x = ltb 0x7f800000 (x % 0x80000000)

unfoldable pub is_nan64 : F64 → Bool
is_nan64 x = ltb 0x7ff0000000000000 (x % 0x8000000000000000)

-- `x <= 0`: not a NaN, and the sign bit is set or the value is a zero.
unfoldable pub le_zero32 : F32 → Bool
unfolding is_nan32
le_zero32 x = not (is_nan32 x) && (leb 0x80000000 x || x == 0)

-- A number that orders the patterns as the values are ordered (both zeros are one).
abbrev pub order32 : F32 → ℕ
order32 x = if ltb x 0x80000000 then 0x80000000 + x else 0x100000000 - x

-- `x < y`: false if either is a NaN.
unfoldable pub lt32 : F32 → F32 → Bool
unfolding is_nan32
lt32 x y = not (is_nan32 x) && not (is_nan32 y) && ltb (order32 x) (order32 y)

-- A number below 2 ^ 24 as a `float`, exactly: the exponent is searched from above.
float_from : ℕ → ℕ → F32
float_from zero n = if n == 0 then 0 else 0x3f800000
float_from (suc e) n =
    if leb (2 ^ suc e) n
    then (suc e + 127) * 0x800000 + (n - 2 ^ suc e) * 2 ^ (23 - suc e)
    else float_from e n

unfoldable pub float_of : ℕ → F32
unfolding float_from
float_of n = float_from 23 n

float_of_force_magic : float_of 21196 ≡ 0x46a59800
unfolding float_of
float_of_force_magic = refl

float_of_mode_id : float_of 255 ≡ 0x437f0000
unfolding float_of
float_of_mode_id = refl
