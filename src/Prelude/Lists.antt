-- ===== src/Prelude/Lists.antt =====
-- Lists measured and indexed by native numbers, under the library's names.
use Prim.Native.Nat.{ℕ, zero, suc, ◌+◌}
use mathlib.Core.Path.{◌≡◌, refl}
use mathlib.Core.Logic.{◌⊎◌, inl, inr}
use mathlib.Core.List.{List, [], ◌∷◌, ◌++◌}
use mathlib.Core.Option.{Option, none, some}
use native.Mathlib.Omega.{arith}

module _ {ℓ} {A : Type ℓ} where
  abbrev pub length : List A → ℕ
  length [] = 0
  length (x ∷ xs) = suc (length xs)

  abbrev pub get_elem? : List A → ℕ → Option A
  get_elem? [] i = none
  get_elem? (x ∷ xs) zero = some x
  get_elem? (x ∷ xs) (suc i) = get_elem? xs i

  -- A write out of bounds changes nothing.
  abbrev pub set : List A → ℕ → A → List A
  set [] i v = []
  set (x ∷ xs) zero v = v ∷ xs
  set (x ∷ xs) (suc i) v = x ∷ set xs i v

  -- The last element, as `s[len(s)-1]` reads it.
  abbrev pub get_last_or : List A → A → A
  get_last_or [] d = d
  get_last_or (x ∷ xs) d = get_last_or xs x

  -- All but the last element, as `s[:len(s)-1]` cuts it.
  abbrev pub drop_last : List A → List A
  drop_last [] = []
  drop_last (x ∷ []) = []
  drop_last (x ∷ y ∷ xs) = x ∷ drop_last (y ∷ xs)

  -- The list without the element at an index.
  abbrev pub remove_at : ℕ → List A → List A
  remove_at i [] = []
  remove_at zero (x ∷ xs) = xs
  remove_at (suc i) (x ∷ xs) = x ∷ remove_at i xs

  -- Every element satisfies the predicate.
  abbrev pub All {κ} : (A → Type κ) → List A → Type κ
  All P [] = Unit
  All P (x ∷ xs) = P x × All P xs

  pub length-append : (xs ys : List A) → length (xs ++ ys) ≡ length xs + length ys
  length-append [] ys = omega arith
  length-append (x ∷ xs) ys = omega (arith, length-append xs ys)

  pub All-append {κ} : (P : A → Type κ) (xs ys : List A) → All P xs → All P ys → All P (xs ++ ys)
  All-append P [] ys hx hy = hy
  All-append P (x ∷ xs) ys hx hy = (hx.0, All-append P xs ys hx.1 hy)

  pub List-cases : (xs : List A) → (xs ≡ []) ⊎ ((x : A) × (rest : List A) × (xs ≡ x ∷ rest))
  List-cases [] = inl refl
  List-cases (x ∷ xs) = inr (x, xs, refl)
