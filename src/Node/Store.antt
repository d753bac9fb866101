-- ===== src/Node/Store.antt =====
-- node/db.go: the database of the node, a store of texts under keys. The library badger is a parameter: the
-- record `Badger` over any type `D` of databases. An entry expires after 14 days, which badger does on its
-- own; `D` may stand for a database with its clock.
use circular.Prelude.{ℕ, String, Bool, List, [], ◌∷◌, if◌then◌else◌, str_eq, ◌≡◌}
use circular.Errors.{Error, Result, ok, err, ◌>>=◌, key_not_found}
use circular.Lightning.{SendPayFailure, SendPaySuccess}
use circular.Graph.Route.{PrettyRoute}

-- consts/db.go
abbrev pub failure_prefix : String
failure_prefix = "f_"

abbrev pub success_prefix : String
success_prefix = "s_"

abbrev pub route_prefix : String
route_prefix = "r_"

abbrev pub timeout_prefix : String
timeout_prefix = "timeout_"

-- the transactions that the code makes; a write that succeeds returns 0
pub record Badger (D : Type 0) : Type 0 where
  -- Update with SetEntry, and with Delete
  pub set_entry : String → String → D → Result ℕ × D
  pub remove : String → D → Result ℕ × D
  -- View with Get and ValueCopy
  pub read : String → D → Result String
  -- View with an iterator: the values under the keys with the prefix, in the order of the keys
  pub values : String → D → List (Result String)
  pub drop_prefix : List String → D → Result ℕ × D

-- A transaction does all or nothing: what can be read after a write, and after one that fails.
pub record IsTransactional {D : Type 0} (b : Badger D) : Type 0 where
  pub read-set :
      (k j v : String) (d : D) (n : ℕ)
      → (b.set_entry k v d).0 ≡ ok n
      → b.read j (b.set_entry k v d).1 ≡ (if str_eq k j then ok v else b.read j d)
  pub read-set_failed :
      (k j v : String) (d : D) (e : Error)
      → (b.set_entry k v d).0 ≡ err e
      → b.read j (b.set_entry k v d).1 ≡ b.read j d
  pub read-remove :
      (k j : String) (d : D) (n : ℕ)
      → (b.remove k d).0 ≡ ok n
      → b.read j (b.remove k d).1 ≡ (if str_eq k j then err key_not_found else b.read j d)
  pub read-remove_failed :
      (k j : String) (d : D) (e : Error)
      → (b.remove k d).0 ≡ err e
      → b.read j (b.remove k d).1 ≡ b.read j d

-- what SaveToDb is given: the values that encoding/json turns into texts
pub data Saved : Type 0 where
  route : PrettyRoute → Saved
  failure : SendPayFailure → Saved
  success : SendPaySuccess → Saved

-- encoding/json on those values
pub record Json : Type 0 where
  pub marshal : Saved → Result String
  pub unmarshal_route : String → Result PrettyRoute
  pub unmarshal_failure : String → Result SendPayFailure
  pub unmarshal_success : String → Result SendPaySuccess

-- the loop of ListFailures, ListSuccesses and ListRoutes: the first error ends it
unfoldable pub read_values :
    {T : Type 0} → (String → Result T) → List (Result String) → Result (List T)
read_values unmarshal [] = ok []
read_values unmarshal (item ∷ items) = do
  v ← item
  value ← unmarshal v
  rest ← read_values unmarshal items
  ok (value ∷ rest)

module _ {D : Type 0} (b : Badger D) (json : Json) where
  unfoldable pub list_failures : D → Result (List SendPayFailure)
  unfolding read_values
  list_failures d = read_values json.unmarshal_failure (b.values failure_prefix d)

  unfoldable pub list_successes : D → Result (List SendPaySuccess)
  unfolding read_values
  list_successes d = read_values json.unmarshal_success (b.values success_prefix d)

  unfoldable pub list_routes : D → Result (List PrettyRoute)
  unfolding read_values
  list_routes d = read_values json.unmarshal_route (b.values route_prefix d)

  -- SaveToDb, with the option `circular-save-stats`
  unfoldable pub save_to_db : Bool → String → Saved → D → Result ℕ × D
  save_to_db save_stats key value d =
      if save_stats
      then elim (json.marshal value) [ err e ↦ (err e, d) | ok text ↦ b.set_entry key text d ]
      else (ok 0, d)
