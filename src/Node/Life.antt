-- ===== src/Node/Life.antt =====
-- All that changes the node of node/node.go while the plugin runs, in any order: the cron jobs, the reports of
-- lightningd that cmd/circular/subscriptions.go passes on, the loop of UpdateLiquidity, the commands that
-- change the node, and the calls of rebalances, one by one.
pub mod Kept
use circular.Prelude.{ℕ, String, Bool, true, false, ◌≡◌, Map}
use circular.Errors.{Result, ok, err}
use circular.Lightning.{Peer, SendPayFailure, SendPaySuccess}
use circular.Graph.Route.{Route, PrettyRoute}
use circular.Node.Peers.{on_connect, on_disconnect}
use circular.Node.Store.{Badger, Json, Saved}
use circular.Node.State.{Node, Client}
use circular.Node.Payments.{
  generate_preimage_hash_pair, send_pay, save, on_payment_failure, on_payment_success,
  update_liquidity,
}
use circular.Node.Files.{Files}
use circular.Node.Cron.{refresh_graph, refresh_peers, refresh_node_liquidity}
use circular.Node.Stats.{delete_stats}
use circular.Node.Control.{call_stop, call_resume}
use circular.Node.Instance.{move_balance}

module _ {D T L : Type 0} (b : Badger D) (json : Json) (client : Client L) (files : Files T L)
    (announce : PrettyRoute → L → L) where
  -- registerSubscriptions: the handlers of cmd/circular pass each report on to the node
  unfoldable pub on_send_pay_failure : SendPayFailure → Node D L → Node D L
  on_send_pay_failure = on_payment_failure b json client

  unfoldable pub on_send_pay_success : SendPaySuccess → Node D L → Node D L
  on_send_pay_success = on_payment_success b json client

  unfoldable pub on_connect_event : String → Node D L → Node D L
  on_connect_event id n = record n { peers = on_connect id n.peers }

  unfoldable pub on_disconnect_event : String → Node D L → Node D L
  on_disconnect_event id n = record n { peers = on_disconnect id n.peers }

  -- one change of the node that is no circular-resume
  pub data Turn : Node D L → Node D L → Type 0 where
    graph_refreshed : (n : Node D L) (now : ℕ) → Turn n (refresh_graph client files now n).1
    peers_refreshed : (n : Node D L) → Turn n (refresh_peers client files n).1
    liquidity_refreshed : (n : Node D L) (now : ℕ) → Turn n (refresh_node_liquidity now n).0
    liquidity_learned : (n : Node D L) (now : ℕ) → Turn n (update_liquidity now n)
    failed : (n : Node D L) (sf : SendPayFailure) → Turn n (on_send_pay_failure sf n)
    succeeded : (n : Node D L) (ss : SendPaySuccess) → Turn n (on_send_pay_success ss n)
    connected : (n : Node D L) (id : String) → Turn n (on_connect_event id n)
    disconnected : (n : Node D L) (id : String) → Turn n (on_disconnect_event id n)
    stats_deleted : (n : Node D L) → Turn n (delete_stats b json n).1
    stopped : (n : Node D L) → Turn n (call_stop n).1
    -- of a rebalance
    generated : (n : Node D L) → Turn n (generate_preimage_hash_pair b json client n).1
    sent : (n : Node D L) (r : Route) (hash : String) → Turn n (send_pay b json client r hash n).1
    saved : (n : Node D L) (key : String) (v : Saved) → Turn n (save b json client key v n)
    announced :
        (n : Node D L) (route : PrettyRoute) → Turn n (record n { world = announce route n.world })
    moved :
        (n m : Node D L) (out_peer in_peer out_scid in_scid : String) (amount : ℕ)
        → move_balance out_peer in_peer out_scid in_scid amount n ≡ ok m
        → Turn n m

  -- a life of the node, and whether circular-resume was called in it
  pub data Life (n : Node D L) : Bool → Node D L → Type 0 where
    here : Life n false n
    next : {x : Bool} {m p : Node D L} → Life n x m → Turn m p → Life n x p
    resumed : {x : Bool} {m : Node D L} → Life n x m → Life n true (call_resume m).1
