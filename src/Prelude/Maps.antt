-- ===== src/Prelude/Maps.antt =====
-- Go's maps with string keys, as association lists. The order of the entries is the order in which
-- `range` meets them, which Go leaves open: a statement for every list is one for every order.
use Prim.Native.String.{String}
use mathlib.Core.Path.{◌≡◌, refl, sym, subst, subst₂}
use mathlib.Core.Bool.{true}
use mathlib.Core.Option.{Option, none, some}
use mathlib.Core.List.{List, [], ◌∷◌}
use mathlib.Core.Logic.{inl, inr}
use native.Mathlib.Omega.{arith}
use circular.Prelude.Tests.{str_eq, eq_iff, Bool-cases, if◌then◌else◌}

abbrev pub Map {ℓ} : Type ℓ → Type ℓ
Map V = List (String × V)

module _ {ℓ} {V : Type ℓ} where
  -- v, ok := m[k]
  unfoldable pub lookup : String → Map V → Option V
  lookup k [] = none
  lookup k ((j, v) ∷ m) = if str_eq j k then some v else lookup k m

  -- m[k] = v
  unfoldable pub insert : String → V → Map V → Map V
  insert k v [] = (k, v) ∷ []
  insert k v ((j, w) ∷ m) = if str_eq j k then (j, v) ∷ m else (j, w) ∷ insert k v m

  -- delete(m, k)
  unfoldable pub delete : String → Map V → Map V
  delete k [] = []
  delete k ((j, v) ∷ m) = let rest = delete k m in if str_eq j k then rest else (j, v) ∷ rest

  -- what the read `m[k]` gives, the zero value on a missing key
  abbrev pub get_or : V → Option V → V
  get_or d none = d
  get_or d (some v) = v

  pub lookup-insert :
      (key asked : String) (v : V) (m : Map V)
      → lookup asked (insert key v m) ≡ (if str_eq key asked then some v else lookup asked m)
  unfolding lookup insert
  lookup-insert key asked v [] = refl
  lookup-insert key asked v (entry ∷ m) = ground (
    arith,
    lookup-insert key asked v m,
    eq_iff key asked,
    eq_iff entry.0 key,
    eq_iff entry.0 asked,
  )

  pub lookup-delete :
      (k j : String) (m : Map V) → lookup j (delete k m) ≡ (if str_eq k j then none else lookup j m)
  unfolding lookup delete
  lookup-delete k j [] = ground arith
  lookup-delete k j ((i, w) ∷ m) =
      ground (arith, eq_iff k j, eq_iff i k, eq_iff i j, lookup-delete k j m)

  -- every entry satisfies the predicate
  abbrev pub Entries {κ} : (String → V → Type κ) → Map V → Type κ
  Entries P [] = Unit
  Entries P ((k, v) ∷ m) = P k v × Entries P m

module _ {ℓ κ} {V : Type ℓ} (P : String → V → Type κ) where
  pub Entries-lookup : (k : String) (v : V) (m : Map V) → Entries P m → lookup k m ≡ some v → P k v
  unfolding lookup
  Entries-lookup k v [] a e = cc
  Entries-lookup k v ((j, w) ∷ m) a e = elim (Bool-cases (str_eq j k)) [
    | inl t ↦ let same : w ≡ v = cc (rw t at e) in subst₂ P ((eq_iff j k).0 t) same a.0
    | inr t ↦ Entries-lookup k v m a.1 (rw t at e)
  ]

  pub Entries-insert :
      (k : String) (v : V) (m : Map V) → P k v → Entries P m → Entries P (insert k v m)
  unfolding insert
  Entries-insert k v [] p a = (p, tt)
  Entries-insert k v ((j, w) ∷ m) p a = elim (Bool-cases (str_eq j k)) [
    | inl t ↦ rw (t, insert) (subst (λ i. P i v) (sym ((eq_iff j k).0 t)) p, a.1)
    | inr t ↦ rw (t, insert) (a.0, Entries-insert k v m p a.1)
  ]

pub ruleset map_laws = (lookup-insert, lookup-delete)

-- a key equals itself
pub str_eq_refl : (s : String) → str_eq s s ≡ true
str_eq_refl s = (eq_iff s s).1 refl
