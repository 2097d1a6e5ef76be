-- ===== src/Prelude/Float64.antt =====
-- float64 values as their 64 bits (IEEE 754), and Go's `<` on them: false where a side is no number,
-- and the two zeros are equal.
use Prim.Native.Nat.{ℕ, ◌*◌, ◌%◌, ◌^◌}
use mathlib.Core.Bool.{Bool, false, not, ◌&&◌, ◌||◌}
use package.v2v_blockchain.Prelude.Tests.{ltb, leb, ◌==◌, if◌then◌else◌}

abbrev pub Float64 : Type 0
Float64 = ℕ

-- The bits without the sign.
abbrev magnitude : Float64 → ℕ
magnitude x = x % 2 ^ 63

abbrev is_negative : Float64 → Bool
is_negative x = leb (2 ^ 63) x

-- An exponent of ones, and a fraction that is not zero.
abbrev is_nan : Float64 → Bool
is_nan x = ltb (2047 * 2 ^ 52) (magnitude x)

unfoldable pub ltb_f64 : Float64 → Float64 → Bool
ltb_f64 x y =
    if is_nan x || is_nan y
    then false
    else if is_negative x
    then (if is_negative y
        then ltb (magnitude y) (magnitude x)
        else not (magnitude x == 0 && magnitude y == 0))
    else if is_negative y
    then false
    else ltb (magnitude x) (magnitude y)

-- 0.0, 5.0, 20.0 and 30.0
abbrev pub f64_zero : Float64
f64_zero = 0

abbrev pub f64_five : Float64
f64_five = 4617315517961601024

abbrev pub f64_twenty : Float64
f64_twenty = 4626322717216342016

abbrev pub f64_thirty : Float64
f64_thirty = 4629137466983448576
