-- ===== src/Rebalance/Commands.antt =====
-- rebalance/bynode.go and rebalance/byscid.go: the commands circular-node and circular. A command returns an
-- error, or the rebalance that it runs.
use circular.Prelude.{ℕ, String, [], ◌∷◌, Map, str_eq, if◌then◌else◌, ◌||◌, not, sub64}
use circular.Errors.{
  Result, ok, err, ◌>>=◌, no_required_parameter, no_peers, self_node,
  same_incoming_and_outgoing_node, no_peer,
}
use circular.Lightning.{Peer}
use circular.Graph.Channel.{Channel}
use circular.Graph.Network.{Graph}
use circular.Node.Peers.{
  has_peer, get_best_peer_channel, get_outgoing_channel_from_scid, get_incoming_channel_from_scid,
}
use circular.Rebalance.Params.{Rebalance, new_rebalance, setup}

pub record ByNode : Type 0 where
  pub out_node : String
  pub in_node : String
  pub amount : ℕ
  pub max_ppm : ℕ
  pub attempts : ℕ
  pub max_hops : ℕ

pub record ByScid : Type 0 where
  pub out_scid : String
  pub in_scid : String
  pub amount : ℕ
  pub max_ppm : ℕ
  pub attempts : ℕ
  pub max_hops : ℕ

-- the check returns 0 where it passes
unfoldable pub validate_peers : ByNode → String → Map Peer → Result ℕ
validate_peers r self [] = err no_peers
validate_peers r self (p ∷ peers) =
    if str_eq r.in_node self || str_eq r.out_node self
    then err self_node
    else if str_eq r.in_node r.out_node
    then err same_incoming_and_outgoing_node
    else if not (has_peer (p ∷ peers) r.in_node)
    then err no_peer
    else if not (has_peer (p ∷ peers) r.out_node)
    then err no_peer
    else ok 0

unfoldable pub get_best_outgoing_channel : ByNode → String → Map Peer → Graph → Result Channel
get_best_outgoing_channel r self peers g = do
  best ← get_best_peer_channel peers r.out_node (λ channel. channel.milli_satoshi_to_us)
  get_outgoing_channel_from_scid self peers g best.short_channel_id

unfoldable pub get_best_incoming_channel : ByNode → String → Map Peer → Graph → Result Channel
get_best_incoming_channel r self peers g = do
  best ←
      get_best_peer_channel peers r.in_node
        (λ channel. sub64 channel.milli_satoshi_total channel.milli_satoshi_to_us)
  get_incoming_channel_from_scid self peers g best.short_channel_id

-- NewRebalance and Setup
unfoldable pub set_up : Rebalance → Map Peer → Result Rebalance
unfolding setup
set_up r peers = let done = setup r peers in (do _ ← done.1; ok done.0)

unfoldable pub call_by_node : ByNode → String → Map Peer → Graph → Result Rebalance
unfolding validate_peers get_best_outgoing_channel get_best_incoming_channel set_up
call_by_node r self peers g =
    if str_eq r.in_node "" || str_eq r.out_node "" then err no_required_parameter else (do
      _ ← validate_peers r self peers
      outgoing ← get_best_outgoing_channel r self peers g
      incoming ← get_best_incoming_channel r self peers g
      set_up (new_rebalance outgoing incoming r.amount r.max_ppm r.attempts r.max_hops) peers)

unfoldable pub call_by_scid : ByScid → String → Map Peer → Graph → Result Rebalance
unfolding set_up
call_by_scid r self peers g =
    if str_eq r.in_scid "" || str_eq r.out_scid "" then err no_required_parameter else (do
      outgoing ← get_outgoing_channel_from_scid self peers g r.out_scid
      incoming ← get_incoming_channel_from_scid self peers g r.in_scid
      set_up (new_rebalance outgoing incoming r.amount r.max_ppm r.attempts r.max_hops) peers)
