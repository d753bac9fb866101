-- ===== src/Node/Sockets.antt =====
-- node/websocket.go: the web sockets of the user interface. A connection is a number, and a handler runs for it:
-- `data_of` has the variable `data` of each handler. `V` is a decoded JSON value, and `L` is all else, with
-- what has been sent. The lock is held for the whole of each change and of each broadcast.
pub mod Requests
pub mod Active
pub mod Broadcast
pub mod Answers
mod Fixture
mod Examples
use circular.Prelude.{
  ℕ, zero, suc, String, List, [], ◌∷◌, ◌++◌, Option, none, some, ◌==◌, if◌then◌else◌, drop_last,
  get_last_or, get_elem?, set, remove_at,
}
use circular.Errors.{Error, Result, ok, err}
use circular.Types as Types
use circular.Graph.Route.{PrettyRoute}
use circular.Rebalance.Commands.{ByScid}
use circular.Node.Sockets.Requests.{
  WebsocketMessage, Fields, Payload, nothing, finished, attempted, WebsocketResponse, Backend,
  merge, Action, action_of, started, serve, action_rebalance_update, action_rebalance_end,
  action_rebalance_failed,
}

-- the sockets of the node, the rebalances that goroutines of the handlers run, and the handlers' data
pub record Sockets (V L : Type 0) : Type 0 where
  pub active : List ℕ
  pub pending : List ByScid
  pub data_of : ℕ → WebsocketMessage V
  pub world : L

-- what a handler, or a goroutine of the node, meets next
pub data Event (V : Type 0) : Type 0 where
  -- a handler begins: a new connection
  opened : ℕ → Event V
  -- JSON.Receive returns: with the fields that it has read, with an error, or with io.EOF
  received : ℕ → Fields V → Event V
  unreadable : ℕ → Fields V → Event V
  closed : ℕ → Event V
  -- lightningd answers the request of a goroutine
  answered : ℕ → Result Types.Result → Event V
  -- SendRebalanceAttempt is called
  tried : PrettyRoute → Event V

unfoldable pub index_of : ℕ → List ℕ → Option ℕ
index_of ws [] = none
index_of ws (i ∷ sockets) =
    let rest = index_of ws sockets in
    if ws == i then some 0 else elim rest [ none ↦ none | some k ↦ some (suc k) ]

-- the last socket takes the place of the one that is gone
unfoldable pub remove_socket : ℕ → List ℕ → List ℕ
unfolding index_of
remove_socket ws sockets = elim (index_of ws sockets) [
  | none ↦ sockets
  | some i ↦ drop_last (set sockets i (get_last_or sockets ws))
]

module _ {V I N P L : Type 0} (b : Backend V I N P L) where
  -- the loop of websocketBroadcast: an error ends it
  unfoldable pub send_all : WebsocketResponse I N P → List ℕ → L → L
  send_all data_value [] l = l
  send_all data_value (ws ∷ sockets) l =
      let sent = b.send ws data_value l in
      elim sent.0 [ err e ↦ sent.1 | ok _ ↦ send_all data_value sockets sent.1 ]

  unfoldable pub websocket_broadcast : String → Payload I N P → String → Sockets V L → Sockets V L
  unfolding send_all
  websocket_broadcast action payload error s = record s {
    world =
        send_all (record { action = action; payload = payload; error = error }) s.active s.world;
  }

  unfoldable pub send_rebalance_attempt : PrettyRoute → Sockets V L → Sockets V L
  unfolding websocket_broadcast
  send_rebalance_attempt route = websocket_broadcast action_rebalance_update (attempted route) ""

  -- the end of the goroutine of a rebalance
  unfoldable pub end_rebalance : Result Types.Result → Sockets V L → Sockets V L
  unfolding websocket_broadcast
  end_rebalance (err e) = websocket_broadcast action_rebalance_failed nothing (b.text e)
  end_rebalance (ok res) = websocket_broadcast action_rebalance_end (finished res) ""

  abbrev pub store : ℕ → WebsocketMessage V → Sockets V L → Sockets V L
  store ws m s = record s { data_of = λ i. if ws == i then m else s.data_of i }

  -- the switch of handleWebsocket on the action of a message
  unfoldable pub serve_message : ℕ → WebsocketMessage V → Sockets V L → Sockets V L
  unfolding action_of serve
  serve_message ws m s =
      let action = action_of m.action in
      record s {
        pending = s.pending ++ started b action m.data_value;
        world = (serve b ws action m.data_value s.world).1;
      }

  -- one round of handleWebsocket, or of a goroutine
  unfoldable pub handle : WebsocketMessage V → Event V → Sockets V L → Sockets V L
  unfolding remove_socket serve_message end_rebalance send_rebalance_attempt
  handle empty (opened ws) s = store ws empty (record s { active = s.active ++ ws ∷ [] })
  handle empty (received ws fields) s =
      let m = merge fields (s.data_of ws) in serve_message ws m (store ws m s)
  handle empty (unreadable ws fields) s = store ws (merge fields (s.data_of ws)) s
  handle empty (closed ws) s = record s { active = remove_socket ws s.active }
  handle empty (answered i result) s = elim (get_elem? s.pending i) [
    | none ↦ s
    | some _ ↦ end_rebalance result (record s { pending = remove_at i s.pending })
  ]
  handle empty (tried route) s = send_rebalance_attempt route s

  -- any number of connections, in any order of their events
  unfoldable pub handle_all : WebsocketMessage V → List (Event V) → Sockets V L → Sockets V L
  unfolding handle
  handle_all empty [] s = s
  handle_all empty (e ∷ events) s = handle_all empty events (handle empty e s)
