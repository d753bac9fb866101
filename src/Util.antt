-- ===== src/Util.antt =====
-- util/util.go: `All`, `GetDirection`, `Min`, `Max`, `RandRange` and `GetMapValues`.
pub mod Laws
use circular.Prelude.{
  ℕ, ◌+◌, ◌%◌, String, Bool, true, false, List, [], ◌∷◌, Map, ltb, str_lt, ◌==◌, if◌then◌else◌, not,
  add64, sub64,
}

unfoldable pub all : List Bool → Bool
all [] = true
all (b ∷ v) = if not b then false else all v

unfoldable pub get_direction : String → String → String
get_direction from to = if str_lt from to then "0" else "1"

unfoldable pub min : ℕ → ℕ → ℕ
min n1 n2 = if ltb n1 n2 then n1 else n2

unfoldable pub max : ℕ → ℕ → ℕ
max n1 n2 = if ltb n2 n1 then n1 else n2

-- `random` is what rand.Int63 returns.
unfoldable pub rand_range : ℕ → ℕ → ℕ → ℕ
rand_range random lo hi =
    if lo == hi then lo else if ltb hi lo then 0 else add64 lo (random % sub64 hi lo)

unfoldable pub get_map_values {ℓ} : {T : Type ℓ} → Map T → List T
get_map_values [] = []
get_map_values ((k, v) ∷ m) = v ∷ get_map_values m
