-- ===== src/Node/Peers.antt =====
-- node/peers.go: the peers of the node and their channels. A method takes the maps that it reads, and
-- returns those that it writes. n.Peers is a map of pointers to peers: to read the channels of a peer that
-- it lacks is a panic.
use Prim.Native.String.{◌++◌ as str_append}
use circular.Prelude.{
  ℕ, String, Bool, true, false, Option, none, some, List, [], ◌∷◌, Map, lookup, insert, str_eq, ltb,
  if◌then◌else◌, add64, sub64, mul64,
}
use circular.Errors.{
  Result, ok, err, Error, no_peer_channel, no_outgoing_channel, no_incoming_channel, panic, ◌>>=◌,
}
use circular.Lightning.{PeerChannel, Peer}
use circular.Graph.Channel.{Channel}
use circular.Graph.Network.{Graph, get_channel, channel_id}

-- for _, channel := range channels
unfoldable pub best_channel : (PeerChannel → ℕ) → PeerChannel → List PeerChannel → PeerChannel
best_channel metric best [] = best
best_channel metric best (c ∷ channels) =
    best_channel metric (if ltb (metric best) (metric c) then c else best) channels

-- the best of the channels of one peer; channels[0] of no channels is a panic
unfoldable pub best_of : (PeerChannel → ℕ) → List PeerChannel → Result PeerChannel
unfolding best_channel
best_of metric [] = err panic
best_of metric (c ∷ channels) = ok (best_channel metric c (c ∷ channels))

unfoldable pub get_best_peer_channel : Map Peer → String → (PeerChannel → ℕ) → Result PeerChannel
unfolding best_of
get_best_peer_channel peers id metric = elim (lookup id peers) [
  | none ↦ err panic
  | some peer ↦ best_of metric peer.channels
]

unfoldable pub find_channel : String → List PeerChannel → Option PeerChannel
find_channel scid [] = none
find_channel scid (c ∷ channels) =
    if str_eq c.short_channel_id scid then some c else find_channel scid channels

-- the loops of GetPeerChannelFromGraphChannel and of GetChannelPeerFromScid
unfoldable pub find_peer : String → Map Peer → Option (Peer × PeerChannel)
unfolding find_channel
find_peer scid [] = none
find_peer scid ((id, peer) ∷ peers) = elim (find_channel scid peer.channels) [
  | none ↦ find_peer scid peers
  | some c ↦ some (peer, c)
]

unfoldable pub get_peer_channel_from_graph_channel : Map Peer → Channel → Result PeerChannel
unfolding find_peer
get_peer_channel_from_graph_channel peers channel =
    elim (find_peer channel.short_channel_id peers) [
      | none ↦ err no_peer_channel
      | some (peer, c) ↦ ok c
    ]

unfoldable pub has_peer : Map Peer → String → Bool
has_peer peers id = elim (lookup id peers) [ none ↦ false | some _ ↦ true ]

unfoldable pub get_channel_peer_from_scid : Map Peer → String → Result Peer
unfolding find_peer
get_channel_peer_from_scid peers scid = elim (find_peer scid peers) [
  | none ↦ err no_peer_channel
  | some (peer, c) ↦ ok peer
]

unfoldable pub is_peer_connected : Map Peer → PeerChannel → Bool
unfolding get_channel_peer_from_scid
is_peer_connected peers channel = elim (get_channel_peer_from_scid peers channel.short_channel_id) [
  | err e ↦ false
  | ok peer ↦ peer.connected
]

unfoldable pub get_graph_channel_from_peer_channel : Graph → PeerChannel → String → Result Channel
get_graph_channel_from_peer_channel g channel direction =
    get_channel (str_append channel.short_channel_id (str_append "/" direction)) g

-- the error of the graph becomes that of the direction
abbrev pub missing_as : Error → Result Channel → Result Channel
missing_as e (err _) = err e
missing_as e (ok c) = ok c

unfoldable pub get_outgoing_channel_from_scid : String → Map Peer → Graph → String → Result Channel
unfolding get_channel_peer_from_scid
get_outgoing_channel_from_scid self peers g scid = do
  peer ← get_channel_peer_from_scid peers scid
  missing_as no_outgoing_channel (get_channel (channel_id scid self peer.id) g)

unfoldable pub get_incoming_channel_from_scid : String → Map Peer → Graph → String → Result Channel
unfolding get_channel_peer_from_scid
get_incoming_channel_from_scid self peers g scid = do
  peer ← get_channel_peer_from_scid peers scid
  missing_as no_incoming_channel (get_channel (channel_id scid peer.id self) g)

-- the loops of UpdateChannelBalance: the first channel of the id gets another balance
unfoldable pub change_balance : String → (ℕ → ℕ) → List PeerChannel → List PeerChannel
change_balance scid f [] = []
change_balance scid f (c ∷ channels) =
    let rest = change_balance scid f channels in
    if str_eq c.short_channel_id scid
    then record c { milli_satoshi_to_us = f c.milli_satoshi_to_us } ∷ channels
    else c ∷ rest

unfoldable pub change_peer : String → String → (ℕ → ℕ) → Map Peer → Result (Map Peer)
unfolding change_balance
change_peer id scid f peers = elim (lookup id peers) [
  | none ↦ err panic
  | some peer ↦
      ok (insert id (record peer { channels = change_balance scid f peer.channels }) peers)
]

unfoldable pub update_channel_balance :
    Map Peer → String → String → String → String → ℕ → Result (Map Peer)
unfolding change_peer
update_channel_balance peers out_peer in_peer out_scid in_scid amount = do
  paid ← change_peer out_peer out_scid (λ to_us. sub64 to_us (mul64 amount 1000)) peers
  change_peer in_peer in_scid (λ to_us. add64 to_us (mul64 amount 1000)) paid

abbrev pub set_connected : Bool → String → Map Peer → Map Peer
set_connected b id peers = elim (lookup id peers) [
  | none ↦ peers
  | some peer ↦ insert id (record peer { connected = b }) peers
]

unfoldable pub on_connect : String → Map Peer → Map Peer
on_connect = set_connected true

unfoldable pub on_disconnect : String → Map Peer → Map Peer
on_disconnect = set_connected false
