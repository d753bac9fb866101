-- ===== src/Singleton.antt =====
-- singleton/node.go: what a rebalance sees of the node. `W` is everything that a call may read or change:
-- the node's maps, its database, lightningd and the network.
use circular.Prelude.{ℕ, String, Bool, Map}
use circular.Errors.{Result}
use circular.Lightning.{Peer}
use circular.Graph.Route.{Route, PrettyRoute}
use circular.Graph.Network.{Graph}

pub record Node (W : Type 0) : Type 0 where
  pub get_id : W → String
  pub get_peers : W → Map Peer
  pub get_graph : W → Graph
  pub stopped : W → Bool
  -- the hash of the new pair
  pub generate_preimage_hash_pair : W → Result String × W
  pub save_to_db : String → PrettyRoute → W → Result ℕ × W
  pub send_rebalance_attempt : PrettyRoute → W → W
  -- the preimage that the payment returns
  pub send_pay : Route → String → W → Result String × W
  -- outPeer, inPeer, outScid, inScid and the amount; a peer that is missing is a panic
  pub update_channel_balance : String → String → String → String → ℕ → W → Result W
