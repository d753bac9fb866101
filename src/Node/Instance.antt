-- ===== src/Node/Instance.antt =====
-- Node of node/node.go as the interface of singleton/node.go.
use circular.Prelude.{ℕ, String}
use circular.Errors.{Result, ok, ◌>>=◌}
use circular.Graph.Route.{PrettyRoute}
use circular.Singleton as Singleton
use circular.Node.Peers as Peers
use circular.Node.Store.{Badger, Json, route, save_to_db}
use circular.Node.State.{Node, Client}
use circular.Node.Payments.{generate_preimage_hash_pair, send_pay, save}

-- UpdateChannelBalance writes to the peers
abbrev pub move_balance :
    {D L : Type 0} → String → String → String → String → ℕ → Node D L → Result (Node D L)
move_balance out_peer in_peer out_scid in_scid amount n = do
  peers ← Peers.update_channel_balance n.peers out_peer in_peer out_scid in_scid amount
  ok (record n { peers = peers })

-- `announce` is SendRebalanceAttempt, which tells the web sockets of the route
abbrev pub instance_of :
    {D L : Type 0} → Badger D → Json → Client L → (PrettyRoute → L → L) → Singleton.Node (Node D L)
instance_of b json client announce = record {
  get_id = λ n. n.id;
  get_peers = λ n. n.peers;
  get_graph = λ n. n.graph;
  stopped = λ n. n.stopped;
  generate_preimage_hash_pair = generate_preimage_hash_pair b json client;
  save_to_db = λ key pretty n. (
    (save_to_db b json n.save_stats key (route pretty) n.db).0,
    save b json client key (route pretty) n,
  );
  send_rebalance_attempt = λ pretty n. record n { world = announce pretty n.world };
  send_pay = send_pay b json client;
  update_channel_balance = move_balance;
}
