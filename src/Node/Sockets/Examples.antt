-- ===== src/Node/Sockets/Examples.antt =====
-- Tests of the web sockets, and the theorems at test data.
use mathlib.Core.List.{Perm}
use mathlib.Core.List.Perm
use circular.Prelude.{◌≡◌, refl, String, [], ◌∷◌, none}
use circular.Errors.{ok, library}
use circular.Node.Sockets.Requests.{
  nothing, WebsocketResponse, ping, rebalance_by_scid, unknown, action_of, list_channels,
}
use circular.Node.Sockets.{opened, received, closed, remove_socket, websocket_broadcast, handle_all}
use circular.Node.Sockets.{serve_message}
use circular.Node.Sockets.Active.{connections, handle_all-Perm}
use circular.Node.Sockets.Broadcast.{message, deliver, websocket_broadcast-stops}
use circular.Node.Sockets.Answers.{
  IsServed, serve_message-IsServed, received-repeats, list_channels-peers,
}
use circular.Node.Sockets.Fixture.{backend, empty, asking, two_open}

abbrev pong : WebsocketResponse String String String
pong = record { action = "pong"; payload = nothing; error = "" }

action_of_capitals : action_of "RebalanceByScid" ≡ rebalance_by_scid
unfolding action_of
action_of_capitals = refl

action_of_dotted : action_of "PİNG" ≡ ping
unfolding action_of
action_of_dotted = refl

action_of_other : action_of "pings" ≡ unknown
unfolding action_of
action_of_other = refl

remove_socket_first : remove_socket 7 (7 ∷ 13 ∷ 9 ∷ []) ≡ 9 ∷ 13 ∷ []
unfolding remove_socket
remove_socket_first = refl

-- a ping, and then a message without fields
two_pongs :
    (handle_all backend empty
      (received 7 (asking "ping") ∷ received 7 (record { action = none; data_value = none }) ∷ [])
      two_open).world
    ≡ (7, pong) ∷ (7, pong) ∷ []
unfolding handle_all
two_pongs = refl

handle_all-Perm_example :
    Perm
      (handle_all backend empty
        (opened 4 ∷ closed 7 ∷ received 4 (asking "getinfo") ∷ closed 13 ∷ [])
        two_open).active
      (connections {V = String}
        (opened 4 ∷ closed 7 ∷ received 4 (asking "getinfo") ∷ closed 13 ∷ [])
        (7 ∷ 13 ∷ 9 ∷ []))
handle_all-Perm_example = handle_all-Perm backend empty _ two_open _ Perm.rfl

websocket_broadcast-stops_example :
    (websocket_broadcast backend "rebalanceend" nothing "" two_open).world
    ≡ deliver backend (message backend "rebalanceend" nothing "") (7 ∷ 13 ∷ []) []
websocket_broadcast-stops_example =
    websocket_broadcast-stops backend "rebalanceend" nothing "" two_open (7 ∷ []) (13 ∷ 9 ∷ []) refl
      ((0, refl), tt) (library "broken pipe", refl)

list_channels-peers_example : (backend.list_peers []).0 ≡ ok ("alice" ∷ "bob" ∷ [])
unfolding list_channels
list_channels-peers_example =
    list_channels-peers backend []
      (record { peer = "alice"; alias = "alice"; color = "112233" }
        ∷ record { peer = "bob"; alias = "bob"; color = "112233" }
        ∷ [])
      refl

serve_message-IsServed_example :
    IsServed backend 7
      (record { action = "GetInfo"; data_value = "" })
      two_open
      (serve_message backend 7 (record { action = "GetInfo"; data_value = "" }) two_open)
serve_message-IsServed_example =
    serve_message-IsServed backend 7 (record { action = "GetInfo"; data_value = "" }) two_open

received-repeats_example :
    handle_all backend empty
      (received 7 (asking "ping") ∷ received 7 (record { action = none; data_value = none }) ∷ [])
      two_open
    ≡ handle_all backend empty
        (received 7 (asking "ping") ∷ received 7 (asking "ping") ∷ [])
        two_open
received-repeats_example = received-repeats backend empty 7 (asking "ping") two_open
