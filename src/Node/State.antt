-- ===== src/Node/State.antt =====
-- node/node.go: the node's state, and the calls of lightningd and of the sources of chance that it makes.
use circular.Prelude.{ℕ, String, Bool, Option, List, Map, ◌≡◌, refl, ◌⊎◌, inl, inr}
use circular.Errors.{Result, ok, err}
use circular.Lightning.{LightningChannel, LightningNode, LightningHop, Peer}
use circular.Graph.Network.{Graph, refresh_channels}

-- node/liquidity.go: what a failed payment says of a channel
pub record LiquidityUpdate : Type 0 where
  pub amount : ℕ
  pub short_channel_id : String
  pub direction : ℕ

-- `D` is the database, and `L` is all else: lightningd, its network, and chance. The channel
-- LiquidityUpdateChan is the list of the updates that wait, the oldest first; that a sender waits for room in
-- its buffer delays the sender, and changes no update.
pub record Node (D L : Type 0) : Type 0 where
  pub id : String
  pub peers : Map Peer
  pub graph : Graph
  pub db : D
  pub world : L
  pub stopped : Bool
  pub save_stats : Bool
  -- a time.Duration, in nanoseconds
  pub liquidity_refresh : ℕ
  pub updates : List LiquidityUpdate

-- the error of a payment: its text, and the node that the details of a PaymentError name
pub record PayError : Type 0 where
  pub message : String
  pub erring_node : Option String

pub data Payment : Type 0 where
  paid : String → Payment
  unpaid : PayError → Payment

pub Payment-cases :
    (p : Payment) → ((preimage : String) × (p ≡ paid preimage)) ⊎ ((e : PayError) × (p ≡ unpaid e))
Payment-cases (paid preimage) = inl (preimage, refl)
Payment-cases (unpaid e) = inr (e, refl)

-- the methods of the glightning client, and math/rand with crypto/sha256
pub record Client (L : Type 0) : Type 0 where
  pub send_pay_lite : List LightningHop → String → L → Result ℕ × L
  pub wait_send_pay : String → ℕ → L → Payment × L
  pub list_channels : L → Result (List LightningChannel) × L
  pub list_nodes : L → Result (List LightningNode) × L
  pub list_peers : L → Result (List Peer) × L
  pub get_channel : String → L → Result (List LightningChannel) × L
  -- 32 random bytes in hexadecimal, and the hash of bytes, both in hexadecimal
  pub random_preimage : L → String × L
  pub sha256 : String → String

module _ {D L : Type 0} where
  -- SetStopped, as circular-stop and circular-resume call it
  unfoldable pub set_stopped : Bool → Node D L → Node D L
  set_stopped b n = record n { stopped = b }

  -- RefreshChannel: an error is logged
  unfoldable pub refresh_node_channel : Client L → String → Node D L → Node D L
  refresh_node_channel client scid n =
      let asked = client.get_channel scid n.world in
      elim asked.0 [
        | err e ↦ record n { world = asked.1 }
        | ok channels ↦ record n { world = asked.1; graph = refresh_channels channels n.graph }
      ]
