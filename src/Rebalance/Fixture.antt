-- ===== src/Rebalance/Fixture.antt =====
-- Two channels of a node `n` with its peers `b` and `c`, over the small network of the graph's examples.
use circular.Prelude.{ℕ, ◌+◌, String, true, false, [], ◌∷◌, Map}
use circular.Node.Files.{Files}
use circular.Lightning.{PeerChannel, Peer}
use circular.Errors.{ok}
use circular.Graph.Channel.{Channel}
use circular.Graph.Examples.{channel_ab, channel_bc, gossip_ab, gossip_bc, network}
use circular.Singleton.{Node}
use circular.Rebalance.Params.{Rebalance}
use circular.Rebalance.Total.{IsKept}

abbrev pub out_channel : Channel
out_channel = record channel_ab {
  gossip = record gossip_ab { source = "n"; destination = "b"; short_channel_id = "3x3x3" };
}

abbrev pub in_channel : Channel
in_channel = record channel_bc {
  gossip = record gossip_bc { source = "c"; destination = "n"; short_channel_id = "4x4x4" };
}

abbrev pub rebalance : Rebalance
rebalance = record {
  out_channel = out_channel;
  in_channel = in_channel;
  amount = 1000000;
  max_ppm = 5000;
  attempts = 2;
  max_hops = 8;
}

abbrev pub peer_channel : String → PeerChannel
peer_channel scid = record {
  short_channel_id = scid;
  state = "CHANNELD_NORMAL";
  milli_satoshi_to_us = 500000000;
  milli_satoshi_total = 1000000000;
}

abbrev pub peers : Map Peer
peers =
    ("b", record { id = "b"; connected = true; channels = peer_channel "3x3x3" ∷ [] })
    ∷ ("c", record { id = "c"; connected = true; channels = peer_channel "4x4x4" ∷ [] })
    ∷ []

-- the number of payments that were sent, each of which succeeds
abbrev pub node : Node ℕ
node = record {
  get_id = λ w. "n";
  get_peers = λ w. peers;
  get_graph = λ w. network;
  stopped = λ w. false;
  generate_preimage_hash_pair = λ w. (ok "hash", w);
  save_to_db = λ key route w. (ok 0, w);
  send_rebalance_attempt = λ route w. w;
  send_pay = λ route hash w. (ok "preimage", w + 1);
  update_channel_balance = λ out_peer in_peer out_scid in_scid amount w. ok w;
}

pub node-IsKept : IsKept node (λ hash. Unit) (λ w. Unit)
node-IsKept = record {
  hashes = λ w hash e. tt;
  generate = λ w k. tt;
  save = λ hash pretty w h k. tt;
  announce = λ pretty w k. tt;
  pay = λ path hash w h k. tt;
}

abbrev pub files : Files ℕ ℕ
files = record {
  open_file = λ name l. ok 0;
  decode = λ text. ok network.channels;
  exists = λ name l. true;
  is_missing = λ dir l. false;
  mkdir = λ dir l. (ok 0, l);
  create = λ name l. (ok 0, l);
  encode = λ name m l. (ok 0, l);
  rename = λ old new l. (ok 0, l);
}
