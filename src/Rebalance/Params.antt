-- ===== src/Rebalance/Params.antt =====
-- rebalance/params.go, and the data of rebalance/rebalance.go.
use circular.Prelude.{ℕ, String, Map, str_eq, ◌==◌, ltb, not, if◌then◌else◌, sub64, mul64, sle}
use circular.Errors.{
  Result, ok, err, ◌>>=◌, incoming_channel_not_in_normal_state,
  outgoing_channel_not_in_normal_state, incoming_peer_disconnected, outgoing_peer_disconnected,
  incoming_channel_depleted, outgoing_channel_depleted,
}
use circular.Lightning.{PeerChannel, Peer}
use circular.Graph.Channel.{Channel}
use circular.Node.Peers.{get_peer_channel_from_graph_channel, is_peer_connected}

abbrev pub normal : String
normal = "CHANNELD_NORMAL"

abbrev pub default_amount : ℕ
default_amount = 200000000

abbrev pub default_maxppm : ℕ
default_maxppm = 10

abbrev pub default_attempts : ℕ
default_attempts = 1

abbrev pub default_maxhops : ℕ
default_maxhops = 8

pub record Rebalance : Type 0 where
  pub out_channel : Channel
  pub in_channel : Channel
  pub amount : ℕ
  pub max_ppm : ℕ
  pub attempts : ℕ
  pub max_hops : ℕ

unfoldable pub new_rebalance : Channel → Channel → ℕ → ℕ → ℕ → ℕ → Rebalance
new_rebalance out_channel in_channel amount max_ppm attempts max_hops = record {
  out_channel = out_channel;
  in_channel = in_channel;
  amount = amount;
  max_ppm = max_ppm;
  attempts = attempts;
  max_hops = max_hops;
}

-- a check that passes returns 0
unfoldable pub check_connections : Map Peer → PeerChannel → PeerChannel → Result ℕ
check_connections peers in_channel out_channel =
    if not (str_eq in_channel.state normal)
    then err incoming_channel_not_in_normal_state
    else if not (str_eq out_channel.state normal)
    then err outgoing_channel_not_in_normal_state
    else if not (is_peer_connected peers in_channel)
    then err incoming_peer_disconnected
    else if not (is_peer_connected peers out_channel)
    then err outgoing_peer_disconnected
    else ok 0

unfoldable pub check_liquidity : ℕ → PeerChannel → PeerChannel → Result ℕ
check_liquidity amount in_channel out_channel =
    if ltb (sub64 in_channel.milli_satoshi_total in_channel.milli_satoshi_to_us) amount
    then err incoming_channel_depleted
    else if ltb out_channel.milli_satoshi_to_us amount
    then err outgoing_channel_depleted
    else ok 0

unfoldable pub validate_liquidity_parameters : Rebalance → Map Peer → Result ℕ
unfolding check_connections check_liquidity
validate_liquidity_parameters r peers = do
  in_channel ← get_peer_channel_from_graph_channel peers r.in_channel
  out_channel ← get_peer_channel_from_graph_channel peers r.out_channel
  _ ← check_connections peers in_channel out_channel
  check_liquidity r.amount in_channel out_channel

-- an int is not positive
abbrev pub or_default : ℕ → ℕ → ℕ
or_default n d = if sle n 0 then d else n

unfoldable pub set_defaults : Rebalance → Rebalance
set_defaults r =
    let amount = mul64 r.amount 1000 in
    record r {
      amount = if amount == 0 then default_amount else amount;
      max_ppm = if r.max_ppm == 0 then default_maxppm else r.max_ppm;
      attempts = or_default r.attempts default_attempts;
      max_hops = or_default r.max_hops default_maxhops;
    }

-- Setup returns the error of the check; the parameters are set in any case
unfoldable pub setup : Rebalance → Map Peer → Rebalance × Result ℕ
unfolding set_defaults validate_liquidity_parameters
setup r peers = let s = set_defaults r in (s, validate_liquidity_parameters s peers)
