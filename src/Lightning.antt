-- ===== src/Lightning.antt =====
-- The structures of the glightning client, as far as the code reads or writes them. They are data that
-- lightningd reports; the client's calls are parameters of the functions that make them.
-- types/node.go repeats those of a peer and of its channels.
use circular.Prelude.{ℕ, String, Bool, List}

-- glightning.Channel: one direction of a channel, from gossip
pub record LightningChannel : Type 0 where
  pub source : String
  pub destination : String
  pub short_channel_id : String
  pub satoshis : ℕ
  pub is_active : Bool
  pub last_update : ℕ
  pub base_fee_millisatoshi : ℕ
  pub fee_per_millionth : ℕ
  pub delay : ℕ
  pub htlc_minimum : String
  pub htlc_maximum : String

-- glightning.Node: one node, from gossip
pub record LightningNode : Type 0 where
  pub id : String
  pub alias : String

-- glightning.RouteHop: what `sendpay` is given
pub record LightningHop : Type 0 where
  pub id : String
  pub short_channel_id : String
  pub milli_satoshi : ℕ
  pub delay : ℕ
  pub direction : ℕ

-- glightning.PeerChannel
pub record PeerChannel : Type 0 where
  pub short_channel_id : String
  pub state : String
  pub milli_satoshi_to_us : ℕ
  pub milli_satoshi_total : ℕ

-- glightning.Peer
pub record Peer : Type 0 where
  pub id : String
  pub connected : Bool
  pub channels : List PeerChannel

-- glightning.SendPayFailure: the report of a payment that failed
pub record SendPayFailure : Type 0 where
  pub payment_hash : String
  pub milli_satoshi : ℕ
  pub erring_channel : String
  pub erring_direction : ℕ

-- glightning.SendPaySuccess: the report of a payment that succeeded
pub record SendPaySuccess : Type 0 where
  pub payment_hash : String
  pub milli_satoshi : ℕ
