-- ===== src/Node/Stats.antt =====
-- node/stats.go and node/deletestats.go: circular-stats and circular-delete-stats.
use circular.Prelude.{ℕ, String, List, [], ◌∷◌, add64, ◌/◌}
use circular.Errors.{Result, ok, err}
use circular.Lightning.{SendPayFailure, SendPaySuccess}
use circular.Graph.Route.{PrettyRoute}
use circular.Graph.Network as Network
use circular.Node.Store.{
  Badger, Json, list_failures, list_successes, list_routes, success_prefix, failure_prefix,
  route_prefix,
}
use circular.Node.State.{Node}

pub record Stats : Type 0 where
  pub graph_stats : Network.Stats
  pub successes : List SendPaySuccess
  pub failures : List SendPayFailure
  pub routes : List PrettyRoute

-- a list that is not read is nil; the error is logged
abbrev pub listed {ℓ} : {A : Type ℓ} → Result (List A) → List A
listed (err e) = []
listed (ok l) = l

module _ {D L : Type 0} (b : Badger D) (json : Json) where
  unfoldable pub get_stats : Node D L → Stats
  unfolding Network.get_stats list_failures list_successes list_routes
  get_stats n = record {
    graph_stats = Network.get_stats n.graph;
    successes = listed (list_successes b json n.db);
    failures = listed (list_failures b json n.db);
    routes = listed (list_routes b json n.db);
  }

  -- the status, and the node without its stats
  unfoldable pub delete_stats : Node D L → String × Node D L
  delete_stats n =
      let dropped = b.drop_prefix (success_prefix ∷ failure_prefix ∷ route_prefix ∷ []) n.db in
      let n' : Node D L = record n { db = dropped.1 } in
      elim dropped.0 [ err e ↦ ("failure", n') | ok _ ↦ ("success", n') ]

-- the sum that String prints, in satoshis
unfoldable pub total_moved : List SendPaySuccess → ℕ → ℕ
total_moved [] moved = moved / 1000
total_moved (s ∷ successes) moved = total_moved successes (add64 moved s.milli_satoshi)
