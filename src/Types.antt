-- ===== src/Types.antt =====
-- types/node.go and types/result.go: what lightningd and the plugin report as JSON. The structures of glightning
-- inside them are parameters: `H` has the features of a peer, `G` a line of its log, `T` an HTLC.
use circular.Prelude.{ℕ, String, Bool, Option, none, List, Map}
use circular.Graph.Route.{PrettyRoute}

pub record PeerChannel (T : Type 0) : Type 0 where
  pub state : String
  pub scratch_tx_id : String
  pub owner : String
  pub short_channel_id : String
  pub channel_direction : ℕ
  pub channel_id : String
  pub funding_tx_id : String
  pub close_to_address : String
  pub close_to_script : String
  pub status : List String
  pub private : Bool
  pub funding_allocations : Map ℕ
  pub funding_msat : Map String
  pub milli_satoshi_to_us : ℕ
  pub to_us_msat : String
  pub milli_satoshi_to_us_min : ℕ
  pub min_to_us_msat : String
  pub milli_satoshi_to_us_max : ℕ
  pub max_to_us_msat : String
  pub milli_satoshi_total : ℕ
  pub total_msat : String
  pub dust_limit_satoshi : ℕ
  pub dust_limit_msat : String
  pub max_htlc_value_in_flight_milli_satoshi : ℕ
  pub max_htlc_value_in_flight_msat : String
  pub their_channel_reserve_satoshi : ℕ
  pub their_reserve_msat : String
  pub our_channel_reserve_satoshi : ℕ
  pub our_reserve_msat : String
  pub spendable_milli_satoshi : ℕ
  pub spendable_msat : String
  pub receivable_milli_satoshi : ℕ
  pub receivable_msat : String
  pub htlc_min_milli_satoshi : ℕ
  pub minimum_htlc_in_msat : String
  pub their_to_self_delay : ℕ
  pub our_to_self_delay : ℕ
  pub max_accepted_htlcs : ℕ
  pub in_payments_offered : ℕ
  pub in_milli_satoshi_offered : ℕ
  pub incoming_offered_msat : String
  pub in_payments_fulfilled : ℕ
  pub in_milli_satoshi_fulfilled : ℕ
  pub incoming_fulfilled_msat : String
  pub out_payments_offered : ℕ
  pub out_milli_satoshi_offered : ℕ
  pub outgoing_offered_msat : String
  pub out_payments_fulfilled : ℕ
  pub out_milli_satoshi_fulfilled : ℕ
  pub outgoing_fulfilled_msat : String
  pub fee_base_msat : String
  pub fee_proportional_millionths : ℕ
  pub htlcs : List T

pub record Peer (H G T : Type 0) : Type 0 where
  pub id : String
  pub connected : Bool
  pub net_addresses : List String
  pub features : Option H
  pub channels : List (PeerChannel T)
  pub logs : List G

-- `out_side` and `in_side` are the fields Out and In
pub record Result : Type 0 where
  pub status : String
  pub message : String
  pub amount : ℕ
  pub out_side : String
  pub in_side : String
  pub attempts : ℕ
  pub fee : ℕ
  pub ppm : ℕ
  pub route : Option PrettyRoute
  pub format_hint : String

unfoldable pub new_result : String → ℕ → String → String → Result
new_result status amount src dst = record {
  status = status;
  message = "";
  amount = amount;
  out_side = src;
  in_side = dst;
  attempts = 0;
  fee = 0;
  ppm = 0;
  route = none;
  format_hint = "";
}
