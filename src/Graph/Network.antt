-- ===== src/Graph/Network.antt =====
-- graph/graph.go: the graph, its updates from gossip and from failed payments, and its pruning, and the
-- counts of graph/stats.go. The locks are not modelled: each operation holds them from its first to its
-- last access, so that calls run one after the other. time.Now() is the argument `now`.
-- A channel that the map holds by pointer is changed in place; here the map gets the changed channel.
pub mod Edges
pub mod Routed
pub mod WellFormed
pub mod Prune
pub mod Liquidity
pub mod Beliefs
use Prim.Native.String.{◌++◌ as str_append}
use circular.Prelude.{
  ℕ, zero, suc, ◌+◌, ◌*◌, String, Bool, true, false, Option, none, some, List, [], ◌∷◌, ◌++◌, Map,
  lookup, insert, delete, get_or, str_eq, ◌==◌, ltb, leb, slt, if◌then◌else◌, add64, sub64, mul64,
  length, set, get_last_or, drop_last,
}
use circular.Lightning.{LightningChannel, LightningNode}
use circular.Errors.{Result, ok, err, no_channel}
use circular.Util.{get_direction}
use circular.Graph.Htlc.{parse_msat}
use circular.Graph.Channel.{Channel, new_channel, half_liquidity, reset_liquidity}

-- 14 days, in seconds
abbrev pub pruning_interval : ℕ
pruning_interval = 1209600

-- the short channel ids of the channels from one node to another
abbrev pub Edge : Type 0
Edge = List String

pub record Graph : Type 0 where
  pub channels : Map Channel
  pub inbound : Map (Map Edge)
  pub aliases : Map String

abbrev pub new_graph : Graph
new_graph = record { channels = []; inbound = []; aliases = [] }

-- scid + "/" + direction
unfoldable pub channel_id : String → String → String → String
channel_id scid from to = str_append scid (str_append "/" (get_direction from to))

abbrev pub id_of : Channel → String
id_of c = channel_id c.short_channel_id c.source c.destination

-- g.Inbound[to], g.Inbound[to][from]
abbrev pub neighbours : Map (Map Edge) → String → Map Edge
neighbours links to = get_or [] (lookup to links)

abbrev pub edge_of : Map (Map Edge) → String → String → Edge
edge_of links to from = get_or [] (lookup from (neighbours links to))

-- the first test of `allocate`, and the second, on the map that the first has left
unfoldable pub allocate_outer : Map (Map Edge) → String → Map (Map Edge)
allocate_outer links from = elim (lookup from links) [
  | none ↦ insert from [] links
  | some _ ↦ links
]

unfoldable pub allocate_inner : Map (Map Edge) → String → String → Map (Map Edge)
allocate_inner links from to = elim (lookup to (neighbours links from)) [
  | none ↦ insert from (insert to [] (neighbours links from)) links
  | some _ ↦ links
]

unfoldable pub allocate : Map (Map Edge) → String → String → Map (Map Edge)
unfolding allocate_outer allocate_inner
allocate links from to = allocate_inner (allocate_outer links from) from to

-- g.Inbound[to][from] = edge, where the outer entry is there
unfoldable pub set_edge : Map (Map Edge) → String → String → Edge → Map (Map Edge)
set_edge links to from edge = insert to (insert from edge (neighbours links to)) links

-- The second part is the channel, which gets the limits that it lacks.
unfoldable pub add_channel : Channel → Graph → Graph × Channel
unfolding allocate set_edge
add_channel c g =
    let links = allocate g.inbound c.destination c.source in
    let edge = edge_of links c.destination c.source ++ c.short_channel_id ∷ [] in
    let max_htlc = if c.max_htlc_msat == 0 then parse_msat c.htlc_maximum else c.max_htlc_msat in
    let min_htlc = if c.min_htlc_msat == 0 then parse_msat c.htlc_minimum else c.min_htlc_msat in
    (
      record g { inbound = set_edge links c.destination c.source edge },
      record c { max_htlc_msat = max_htlc; min_htlc_msat = min_htlc },
    )

-- the body of the loop of RefreshChannels
unfoldable pub refresh_channel : LightningChannel → Graph → Graph
unfolding add_channel new_channel half_liquidity
refresh_channel c g =
    let id = channel_id c.short_channel_id c.source c.destination in
    elim (lookup id g.channels) [
      | none ↦
          let (g', channel) = add_channel (new_channel c (half_liquidity c.satoshis) 0) g in
          record g' { channels = insert id channel g'.channels }
      | some old ↦ record g {
        channels = insert id (new_channel c old.liquidity old.timestamp) g.channels;
      }
    ]

unfoldable pub refresh_channels : List LightningChannel → Graph → Graph
refresh_channels [] g = g
refresh_channels (c ∷ list) g = refresh_channels list (refresh_channel c g)

unfoldable pub refresh_aliases : List LightningNode → Graph → Graph
refresh_aliases [] g = g
refresh_aliases (n ∷ nodes) g =
    refresh_aliases nodes (record g { aliases = insert n.id n.alias g.aliases })

-- s[i] = s[len(s)-1]; s[:len(s)-1]
unfoldable pub remove : List String → ℕ → List String
remove s i = drop_last (set s i (get_last_or s ""))

-- the index at which the loop of DeleteChannel breaks off
unfoldable pub index_of : String → List String → Option ℕ
index_of scid [] = none
index_of scid (s ∷ edge) =
    if str_eq s scid
    then some 0
    else elim (index_of scid edge) [ none ↦ none | some i ↦ some (suc i) ]

unfoldable pub delete_channel : Channel → Graph → Graph
unfolding remove index_of set_edge
delete_channel c g =
    let edge = edge_of g.inbound c.destination c.source in
    elim (index_of c.short_channel_id edge) [
      | none ↦ record g { channels = delete (id_of c) g.channels }
      | some i ↦ record g {
        channels = delete (id_of c) g.channels;
        inbound = set_edge g.inbound c.destination c.source (remove edge i);
      }
    ]

-- both sides are of type `uint`
unfoldable pub is_stale : ℕ → Channel → Bool
is_stale now c = ltb (add64 c.last_update pruning_interval) now

-- The loop ranges over the map while it deletes from it. An entry that is deleted before the loop
-- reaches it is not met, so each is looked up again.
unfoldable pub prune_loop : ℕ → Map Channel → Graph → Graph
unfolding is_stale delete_channel
prune_loop now [] g = g
prune_loop now ((k, _) ∷ entries) g = prune_loop now entries (elim (lookup k g.channels) [
  | none ↦ g
  | some c ↦ if is_stale now c then delete_channel c g else g
])

unfoldable pub prune_channels : ℕ → Graph → Graph
unfolding prune_loop
prune_channels now g = prune_loop now g.channels g

unfoldable pub get_alias : Graph → String → String
get_alias g id = get_or id (lookup id g.aliases)

-- a write through the pointer in the map, if the key is there
abbrev pub modify : String → (Channel → Channel) → Map Channel → Map Channel
modify k f m = elim (lookup k m) [ none ↦ m | some c ↦ insert k (f c) m ]

unfoldable pub update_channel : String → String → ℕ → ℕ → Graph → Graph
update_channel id opposite_id amount now g =
    let first = modify id (λ c. record c { liquidity = amount; timestamp = now }) g.channels in
    let both =
      modify opposite_id
        (λ c. record c { liquidity = sub64 (mul64 c.satoshis 1000) amount; timestamp = now })
        first in
    record g { channels = both }

unfoldable pub get_channel : String → Graph → Result Channel
get_channel id g = elim (lookup id g.channels) [ none ↦ err no_channel | some c ↦ ok c ]

-- both sides are of type int64; `threshold` is refreshThreshold.Seconds()
unfoldable pub is_expired : ℕ → ℕ → Channel → Bool
is_expired threshold now c = slt (add64 c.timestamp threshold) now

-- the loop of RefreshLiquidity: the channels, and the count of those that were reset
unfoldable pub refresh_entries : ℕ → ℕ → Map Channel → Map Channel × ℕ
unfolding is_expired
refresh_entries threshold now [] = ([], 0)
refresh_entries threshold now ((k, c) ∷ m) =
    let (rest, hits) = refresh_entries threshold now m in
    if is_expired threshold now c
    then ((k, reset_liquidity now c) ∷ rest, hits + 1)
    else ((k, c) ∷ rest, hits)

unfoldable pub refresh_liquidity : ℕ → ℕ → Graph → Graph × ℕ
unfolding refresh_entries
refresh_liquidity threshold now g =
    let (channels, hits) = refresh_entries threshold now g.channels in
    (record g { channels = channels }, hits)

pub record Stats : Type 0 where
  pub nodes : ℕ
  pub channels : ℕ
  pub active_channels : ℕ
  pub liquid_channels : ℕ
  pub max_htlc_channels : ℕ

-- the number of entries that pass a test, as the loop of GetStats counts them
unfoldable pub count_channels : (Channel → Bool) → Map Channel → ℕ
count_channels test [] = 0
count_channels test ((k, c) ∷ m) =
    let rest = count_channels test m in if test c then rest + 1 else rest

unfoldable pub get_stats : Graph → Stats
unfolding count_channels
get_stats g = record {
  nodes = length g.inbound;
  channels = length g.channels;
  active_channels = count_channels (λ c. c.is_active) g.channels;
  liquid_channels = count_channels (λ c. leb 200000000 c.liquidity) g.channels;
  max_htlc_channels = count_channels (λ c. leb 200000000 (parse_msat c.htlc_maximum)) g.channels;
}
