-- ===== src/Node/Init.antt =====
-- NewNode and Init of node/node.go: the start of the node. The calls that Init makes besides those of the cron jobs are
-- a parameter: the record `Starter`. The node is made before its database is open, so that it begins with none.
pub mod Services
pub mod Ready
use Prim.Native.String.{◌++◌ as str_append}
use circular.Prelude.{ℕ, String, Bool, false, Option, [], Map}
use circular.Errors.{Error, Result, ok, err, ◌>>=◌}
use circular.Graph.Network.{Graph, new_graph}
use circular.Node.State.{Node, Client}
use circular.Node.Files.{Files, path_of, get_graph_from_file}
use circular.Node.Cron.{refresh_graph, refresh_peers}
use circular.Node.Options.{
  Options, Cron, circular_dir, or_exit, set_options, setup_cron_jobs, start_websocket,
}

pub record Starter (D L : Type 0) : Type 0 where
  -- GetInfo of glightning, as far as its Id
  pub get_info : L → Result String × L
  -- badger.Open of a directory, in NewDB
  pub open_db : String → L → Result D × L

pub record Started (D C L : Type 0) : Type 0 where
  pub node : Node D L
  pub jobs : C
  pub endpoint : Option String

-- a node with no options, no graph and no database yet
unfoldable pub new_node : {L : Type 0} → L → Node (Unit {0}) L
new_node l = record {
  id = "";
  peers = [];
  graph = new_graph;
  db = tt;
  world = l;
  stopped = false;
  save_stats = false;
  liquidity_refresh = 0;
  updates = [];
}

abbrev pub with_db : {D L : Type 0} → D → L → Node (Unit {0}) L → Node D L
with_db d l n = record {
  id = n.id;
  peers = n.peers;
  graph = n.graph;
  db = d;
  world = l;
  stopped = n.stopped;
  save_stats = n.save_stats;
  liquidity_refresh = n.liquidity_refresh;
  updates = n.updates;
}

module _ {D T C L : Type 0} (client : Client L) (files : Files T L) (cron : Cron C)
    (starter : Starter D L) where
  -- the end of Init: the database, the cron jobs and the web sockets
  unfoldable pub open_node : Options → String → Node (Unit {0}) L → Result (Started D C L)
  open_node options dir n = do
    let opened = starter.open_db dir n.world
    d ← or_exit opened.0
    jobs ← setup_cron_jobs cron options
    endpoint ← start_websocket options
    ok (record { node = with_db d opened.1 n; jobs = jobs; endpoint = endpoint })

  -- the node with its graph and its peers
  unfoldable pub fill_node : String → ℕ → Node (Unit {0}) L → Result (Node (Unit {0}) L)
  fill_node dir now n = do
    let info = starter.get_info n.world
    id ← or_exit info.0
    g ← get_graph_from_file files dir "graph.json" info.1
    let refreshed = refresh_graph client files now (record n { id = id; graph = g; world = info.1 })
    _ ← or_exit refreshed.0
    let listed = refresh_peers client files refreshed.1
    _ ← or_exit listed.0
    ok listed.1

  unfoldable pub init : Options → String → ℕ → Node (Unit {0}) L → Result (Started D C L)
  init options lightning_dir now n = do
    let dir = path_of lightning_dir circular_dir
    set ← set_options options n
    filled ← fill_node dir now set
    open_node options dir filled
