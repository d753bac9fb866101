-- ===== src/Node/Examples.antt =====
-- The theorems about the peers, at two peers with one channel each.
use circular.Prelude.{
  ℕ, ◌+◌, ◌*◌, ◌≤◌, ◌≡◌, ◌≢◌, refl, String, true, none, some, [], ◌∷◌, Map, lookup, eq_iff, All,
  arith,
}
use circular.Errors.{ok}
use circular.Lightning.{PeerChannel, Peer}
use circular.Node.Peers.{
  find_channel, best_of, best_channel, get_best_peer_channel, update_channel_balance,
}
use circular.Node.PeerLaws.{balance_of, get_best_peer_channel-ge, update_channel_balance-moves}

abbrev channel : String → ℕ → PeerChannel
channel scid to_us = record {
  short_channel_id = scid;
  state = "CHANNELD_NORMAL";
  milli_satoshi_to_us = to_us;
  milli_satoshi_total = 1000000000;
}

abbrev peer_b : Peer
peer_b = record {
  id = "b";
  connected = true;
  channels = channel "1x1x1" 400000000 ∷ channel "3x3x3" 500000000 ∷ [];
}

abbrev peer_c : Peer
peer_c = record { id = "c"; connected = true; channels = channel "2x2x2" 600000000 ∷ [] }

abbrev peers : Map Peer
peers = ("b", peer_b) ∷ ("c", peer_c) ∷ []

get_best_peer_channel-ge_example :
    All (λ (c : PeerChannel). c.milli_satoshi_to_us ≤ 500000000) peer_b.channels
unfolding lookup get_best_peer_channel best_of best_channel
get_best_peer_channel-ge_example =
    get_best_peer_channel-ge peers "b" (λ c. c.milli_satoshi_to_us) peer_b
      (channel "3x3x3" 500000000) refl refl

abbrev id_b : String
id_b = "b"

abbrev id_c : String
id_c = "c"

ids_ne : id_b ≢ id_c
ids_ne = ground (arith, eq_iff id_b id_c)

found_b : find_channel "1x1x1" peer_b.channels ≢ none
unfolding find_channel
found_b e = absurd (cc e)

found_c : find_channel "2x2x2" peer_c.channels ≢ none
unfolding find_channel
found_c e = absurd (cc e)

update_channel_balance-moves_example :
    (peers' : Map Peer) × (p' q' : Peer) × (update_channel_balance peers "b" "c" "1x1x1" "2x2x2"
        100000
      ≡ ok peers')
    × (lookup "b" peers' ≡ some p')
    × (lookup "c" peers' ≡ some q')
    × (balance_of "1x1x1" p'.channels + 100000 * 1000 ≡ 400000000)
    × (balance_of "2x2x2" q'.channels ≡ 600000000 + 100000 * 1000)
unfolding lookup
update_channel_balance-moves_example =
    update_channel_balance-moves peers "b" "c" "1x1x1" "2x2x2" 100000 peer_b peer_c ids_ne refl refl
      found_b found_c (omega arith) (omega arith) (omega arith)
