-- ===== src/Graph/Examples.antt =====
-- The theorems about graph/ at a small network: two channels, from `a` to `b` and from `b` to `c`.
use circular.Prelude.{
  inl, All, ◌+◌, ◌*◌, ◌≡◌, ◌≢◌, refl, subst, String, true, none, some, List, [], ◌∷◌, lookup,
  str_eq, if◌then◌else◌, arith, Entries, Entries-lookup, half_float64, to_float64, insert, mul64,
  sub64, eq_iff,
}
use circular.Lightning.{LightningChannel}
use circular.Util.{get_direction}
use circular.Graph.Htlc.{parse_uint, parse_digits, parse_msat, trim_suffix, same_codes}
use circular.Graph.Htlc.Laws.{decimal}
use circular.Graph.Channel.{Channel, new_channel, compute_fee, half_liquidity}
use circular.Graph.Channel.Laws.{new_channel-limits}
use circular.Graph.Channel.Fees.{IsProtocol, compute_fee-eq-exact_fee}
use circular.Graph.Network.{
  Graph, new_graph, channel_id, refresh_channel, add_channel, allocate, allocate_outer,
  allocate_inner, set_edge, refresh_channels, prune_channels, update_channel, refresh_liquidity,
  count_channels,
}
use circular.Graph.Pathfinder.Expand.{Assumptions}
use circular.Graph.Network.Prune.{unless_stale, lookup-prune_channels}
use circular.Graph.Network.Liquidity.{
  failed, opposite, aged, is_older, lookup-update_channel, update_channel-conserves,
  refresh_liquidity_lem,
}
use circular.Graph.Network.WellFormed.{
  Follows, IsWellFormed, IsWellFormed-new_graph, refresh_channels-IsWellFormed,
}

abbrev pub gossip_ab : LightningChannel
gossip_ab = record {
  source = "a";
  destination = "b";
  short_channel_id = "1x1x1";
  satoshis = 1000000;
  is_active = true;
  last_update = 1000;
  base_fee_millisatoshi = 1000;
  fee_per_millionth = 10;
  delay = 6;
  htlc_minimum = "1msat";
  htlc_maximum = "900000000msat";
}

abbrev pub gossip_bc : LightningChannel
gossip_bc = record gossip_ab {
  source = "b";
  destination = "c";
  short_channel_id = "2x2x2";
  fee_per_millionth = 100;
}

abbrev pub gossip : List LightningChannel
gossip = gossip_ab ∷ gossip_bc ∷ []

abbrev pub ends : String → String × String
ends id = if str_eq id "1x1x1/0" then ("a", "b") else ("b", "c")

abbrev pub channel_ab : Channel
channel_ab = record {
  gossip = gossip_ab;
  liquidity = 500000000;
  timestamp = 0;
  max_htlc_msat = 900000000;
  min_htlc_msat = 1;
}

abbrev pub channel_bc : Channel
channel_bc = record {
  gossip = gossip_bc;
  liquidity = 500000000;
  timestamp = 0;
  max_htlc_msat = 900000000;
  min_htlc_msat = 1;
}

abbrev pub network : Graph
network = record {
  channels = ("1x1x1/0", channel_ab) ∷ ("2x2x2/0", channel_bc) ∷ [];
  inbound = ("b", ("a", "1x1x1" ∷ []) ∷ []) ∷ ("c", ("b", "2x2x2" ∷ []) ∷ []) ∷ [];
  aliases = [];
}

network_lem : refresh_channels gossip new_graph ≡ network
unfolding refresh_channels refresh_channel add_channel allocate allocate_outer allocate_inner
    set_edge channel_id get_direction new_channel half_liquidity lookup insert mul64 parse_msat
    parse_uint parse_digits trim_suffix same_codes half_float64 to_float64
network_lem = refl

follows_ab : ends (channel_id "1x1x1" "a" "b") ≡ ("a", "b")
unfolding channel_id get_direction
follows_ab = refl

follows_bc : ends (channel_id "2x2x2" "b" "c") ≡ ("b", "c")
unfolding channel_id get_direction
follows_bc = refl

refresh_channels-IsWellFormed_example : IsWellFormed ends (refresh_channels gossip new_graph)
refresh_channels-IsWellFormed_example =
    refresh_channels-IsWellFormed ends gossip new_graph (IsWellFormed-new_graph ends)
      (follows_ab, (follows_bc, tt))

pub network-IsWellFormed : IsWellFormed ends network
network-IsWellFormed = subst (IsWellFormed ends) network_lem (
    refresh_channels-IsWellFormed ends gossip new_graph (IsWellFormed-new_graph ends)
      (follows_ab, (follows_bc, tt)))

pub gossip-Follows : All (Follows ends) gossip
gossip-Follows = (follows_ab, (follows_bc, tt))

lookup-prune_channels_example :
    lookup "1x1x1/0" (prune_channels 2000000 network).channels
    ≡ unless_stale 2000000 (lookup "1x1x1/0" network.channels)
lookup-prune_channels_example =
    lookup-prune_channels ends 2000000 "1x1x1/0" network network-IsWellFormed

abbrev id_0 : String
id_0 = "1x1x1/0"

abbrev id_1 : String
id_1 = "1x1x1/1"

ids_ne : id_0 ≢ id_1
ids_ne = ground (arith, eq_iff id_0 id_1)

lookup-update_channel_example :
    lookup "3" (update_channel "1x1x1/0" "1x1x1/1" 400000000 5 network).channels ≡ none
unfolding lookup
lookup-update_channel_example =
    lookup-update_channel "1x1x1/0" "1x1x1/1" 400000000 5 network "3" ids_ne

-- both directions of a channel
abbrev both : Graph
both = record network { channels = ("1x1x1/0", channel_ab) ∷ ("1x1x1/1", channel_ab) ∷ [] }

updated_0 :
    lookup "1x1x1/0" (update_channel "1x1x1/0" "1x1x1/1" 400000000 5 both).channels
    ≡ some (failed 400000000 5 channel_ab)
unfolding update_channel lookup insert
updated_0 = refl

updated_1 :
    lookup "1x1x1/1" (update_channel "1x1x1/0" "1x1x1/1" 400000000 5 both).channels
    ≡ some (opposite 400000000 5 channel_ab)
unfolding update_channel lookup insert
updated_1 = refl

update_channel-conserves_example : 400000000 + 600000000 ≡ 1000000 * 1000
unfolding lookup sub64 mul64
update_channel-conserves_example =
    update_channel-conserves "1x1x1/0" "1x1x1/1" 400000000 5 both channel_ab channel_ab
      (failed 400000000 5 channel_ab) (opposite 400000000 5 channel_ab) ids_ne refl refl refl
      (omega arith) (omega arith) updated_0 updated_1

refresh_liquidity_lem_example :
    (lookup "1x1x1/0" (refresh_liquidity 10 100 network).0.channels ≡ some (aged 10 100 channel_ab))
    × ((refresh_liquidity 10 100 network).1 ≡ count_channels (is_older 10 100) network.channels)
unfolding lookup
refresh_liquidity_lem_example =
    refresh_liquidity_lem 10 100 (omega arith) network "1x1x1/0"
      ((omega arith, omega arith), ((omega arith, omega arith), tt))

pub channel-IsProtocol : IsProtocol channel_ab × IsProtocol channel_bc
channel-IsProtocol = (
  record { base = omega arith; rate = omega arith },
  record { base = omega arith; rate = omega arith },
)

compute_fee-eq-exact_fee_example : compute_fee channel_bc 100000 ≡ 1010
compute_fee-eq-exact_fee_example =
    compute_fee-eq-exact_fee channel_bc 100000 channel-IsProtocol.1 (omega arith)

new_channel-limits_example :
    ((new_channel gossip_ab 0 0).max_htlc_msat ≡ 900000000)
    × ((new_channel gossip_ab 0 0).min_htlc_msat ≡ 1)
unfolding decimal
new_channel-limits_example =
    new_channel-limits gossip_ab 0 0 "900000000" "1" (inl refl) (inl refl) (ground arith)
      (ground arith) (ground arith) (ground arith)

IsProtocol-Entries : Entries (λ k c. IsProtocol c) network.channels
IsProtocol-Entries = (channel-IsProtocol.0, (channel-IsProtocol.1, tt))

-- the network meets what the search relies on
pub network-Assumptions : Assumptions ends network 1000000
network-Assumptions = record {
  well_formed = network-IsWellFormed;
  protocol =
      λ k c e. Entries-lookup (λ k c. IsProtocol c) k c network.channels IsProtocol-Entries e;
  small = omega arith;
}
