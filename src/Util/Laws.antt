-- ===== src/Util/Laws.antt =====
-- What util/util.go computes.
use Prim.Native.Nat.{Ordering, compare as compare_ℕ}
use Prim.Native.String.{compare, then as and_then}
use Prim.Native.String.compare
use Prim.Native.Char.{code}
use text.Mathlib.TextEquality.{path_by_compare}
use circular.Prelude.{
  ℕ, ◌%◌, ◌≤◌, ◌<◌, ◌≡◌, ◌≢◌, refl, String, Bool, true, List, [], ◌∷◌, eq_iff, sub64, add64_lem,
  sub64_lem, u64_mod, All, arith,
}
use circular.Util.{all, get_direction, rand_range}

abbrev opposite : Ordering → Ordering
opposite Ordering.lt = Ordering.gt
opposite Ordering.eq = Ordering.eq
opposite Ordering.gt = Ordering.lt

compare_flip_ℕ : (m n : ℕ) → compare_ℕ n m ≡ opposite (compare_ℕ m n)
compare_flip_ℕ m n = ground arith

opposite-then : (o r : Ordering) → opposite (and_then o r) ≡ and_then (opposite o) (opposite r)
opposite-then Ordering.lt r = refl
opposite-then Ordering.eq r = refl
opposite-then Ordering.gt r = refl

-- The order of strings is antisymmetric.
compare_flip : (s t : String) → compare t s ≡ opposite (compare s t)
compare_flip String.[] String.[] = refl
compare_flip String.[] (String.◌∷◌ d t) = simp (compare.cons-nil, compare.nil-cons)
compare_flip (String.◌∷◌ c s) String.[] = simp (compare.cons-nil, compare.nil-cons)
compare_flip (String.◌∷◌ c s) (String.◌∷◌ d t) = rw (
  compare.cons-cons c d s t,
  compare.cons-cons d c t s,
  opposite-then (compare_ℕ (code c) (code d)) (compare s t),
  compare_flip_ℕ (code c) (code d),
  compare_flip s t,
)

zero_ne_one : ¬ (◌≡◌ {A = String} "0" "1")
zero_ne_one = ground (arith, eq_iff "0" "1")

-- The two directions of a channel between different nodes differ, whichever node comes first.
pub get_direction_flip : (a b : String) → a ≢ b → get_direction a b ≢ get_direction b a
unfolding get_direction
get_direction_flip a b h e = ground (
  arith,
  compare_flip a b,
  λ (q : compare a b ≡ Ordering.eq). h (path_by_compare a b q),
  zero_ne_one,
)

-- `All` is true exactly of a list with no false in it.
pub all_iff :
    (v : List Bool)
    → (all v ≡ true → All (λ b. b ≡ true) v) × (All (λ b. b ≡ true) v → all v ≡ true)
unfolding all
all_iff [] = (λ h. tt, λ h. refl)
all_iff (b ∷ v) = ground (arith, all_iff v)

-- Between different bounds, a random amount lies in the half-open range.
pub rand_range_bounds :
    (random lo hi : ℕ)
    → lo < hi
    → hi < u64_mod
    → (lo ≤ rand_range random lo hi) × (rand_range random lo hi < hi)
unfolding rand_range
rand_range_bounds random lo hi h k =
    ground (arith, sub64_lem hi lo, add64_lem lo (random % (sub64 hi lo)))
