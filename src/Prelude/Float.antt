-- ===== src/Prelude/Float.antt =====
-- The one computation with a float64 that has a closed form: `uint64(0.5 * float64(x))`. The conversion
-- rounds to 53 significant bits, ties to even; the product with 0.5 is exact, and the conversion back
-- drops the fraction.
use Prim.Native.Nat.{ℕ, zero, suc, ◌+◌, ◌*◌, ◌/◌, ◌%◌, ◌^◌, ◌<◌}
use mathlib.Core.Path.{◌≡◌, refl}
use native.Mathlib.Omega.{arith}
use circular.Prelude.Tests.{ltb, if◌then◌else◌}

-- the least power of two, below 2 ^ fuel times the first, that leaves 53 bits of `x`
float_unit : ℕ → ℕ → ℕ → ℕ
float_unit zero u x = u
float_unit (suc fuel) u x =
    let wider = float_unit fuel (2 * u) x in if ltb (x / u) (2 ^ 53) then u else wider

-- `x` rounded to a multiple of `u`
round_to : ℕ → ℕ → ℕ
round_to u x =
    let q = x / u in
    let r = x % u in
    if ltb (2 * r) u then q * u else if ltb u (2 * r) then (q + 1) * u else (q + q % 2) * u

-- float64(x), for a uint64 `x`
unfoldable pub to_float64 : ℕ → ℕ
unfolding float_unit round_to
to_float64 x = if ltb x (2 ^ 53) then x else round_to (float_unit 11 1 x) x

unfoldable pub half_float64 : ℕ → ℕ
half_float64 x = to_float64 x / 2

-- Below 2 ^ 53 the conversion is exact.
pub half_float64_lem : (x : ℕ) → x < 2 ^ 53 → half_float64 x ≡ x / 2
unfolding half_float64 to_float64
half_float64_lem x h = ground arith

-- float64(2 ^ 53 + 1) is 2 ^ 53, float64(2 ^ 53 + 3) is 2 ^ 53 + 4
half_float64_ties : ◌≡◌ {A = ℕ} (half_float64 9007199254740995) 4503599627370498
unfolding half_float64 to_float64
half_float64_ties = refl
