-- ===== src/Prelude/Words.antt =====
-- Go's 64-bit words. A `uint64` is a number below 2 ^ 64; an `int` or `int64` is its two's complement
-- pattern, so that a conversion between the two is the identity and addition is the same.
use Prim.Native.Nat.{ℕ, ◌+◌, ◌-◌, ◌*◌, ◌%◌, ◌^◌, ◌≤◌, ◌<◌}
use mathlib.Core.Path.{◌≡◌}
use mathlib.Core.Bool.{Bool}
use native.Mathlib.Omega.{arith}
use native.Mathlib.Nat.{mod-eq_of_lt}
use circular.Prelude.Tests.{ltb, leb}

abbrev pub u64_mod : ℕ
u64_mod = 2 ^ 64

abbrev pub i64_half : ℕ
i64_half = 2 ^ 63

unfoldable pub add64 : ℕ → ℕ → ℕ
add64 a b = (a + b) % u64_mod

unfoldable pub sub64 : ℕ → ℕ → ℕ
sub64 a b = (a + u64_mod - b) % u64_mod

unfoldable pub mul64 : ℕ → ℕ → ℕ
mul64 a b = (a * b) % u64_mod

-- the signed tests a < b and a <= b on patterns
unfoldable pub slt : ℕ → ℕ → Bool
slt a b = ltb ((a + i64_half) % u64_mod) ((b + i64_half) % u64_mod)

unfoldable pub sle : ℕ → ℕ → Bool
sle a b = leb ((a + i64_half) % u64_mod) ((b + i64_half) % u64_mod)

pub add64_lem : (a b : ℕ) → a + b < u64_mod → add64 a b ≡ a + b
unfolding add64
add64_lem a b h = omega arith

pub sub64_lem : (a b : ℕ) → b ≤ a → a < u64_mod → sub64 a b ≡ a - b
unfolding sub64
sub64_lem a b h k = omega arith

pub mul64_lem : (a b : ℕ) → a * b < u64_mod → mul64 a b ≡ a * b
unfolding mul64
mul64_lem a b h = mod-eq_of_lt h

pub add64-lt : (a b : ℕ) → add64 a b < u64_mod
unfolding add64
add64-lt a b = omega arith

pub sub64-lt : (a b : ℕ) → sub64 a b < u64_mod
unfolding sub64
sub64-lt a b = omega arith

pub mul64-lt : (a b : ℕ) → mul64 a b < u64_mod
unfolding mul64
mul64-lt a b = omega arith

-- what was subtracted comes back
pub add64-sub64 : (a b : ℕ) → a < u64_mod → b < u64_mod → add64 (sub64 a b) b ≡ a
unfolding add64 sub64
add64-sub64 a b ha hb = omega arith

pub slt_lem : (a b : ℕ) → a < i64_half → b < i64_half → slt a b ≡ ltb a b
unfolding slt
slt_lem a b ha hb = ground arith

pub sle_lem : (a b : ℕ) → a < i64_half → b < i64_half → sle a b ≡ leb a b
unfolding sle
sle_lem a b ha hb = ground arith
