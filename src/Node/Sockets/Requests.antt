-- ===== src/Node/Sockets/Requests.antt =====
-- node/websocket.go: one message of the user interface, and the answer to it. The client of lightningd, the
-- connections and the decoders are a parameter: the record `Backend`.
use Prim.Native.String.{◌++◌ as str_append}
use circular.Prelude.{
  ℕ, ◌+◌, String, Bool, List, [], ◌∷◌, Option, leb, ◌==◌, ◌&&◌, if◌then◌else◌, map, get_or,
}
use circular.Errors.{Error, Result, ok, err, ◌>>=◌}
use circular.Types as Types
use circular.Graph.Htlc.{codes, same_codes}
use circular.Graph.Route.{PrettyRoute}
use circular.Rebalance.Commands.{ByScid}

abbrev pub action_ping : String
action_ping = "ping"

abbrev pub action_get_info : String
action_get_info = "getinfo"

abbrev pub action_list_peers : String
action_list_peers = "listpeers"

abbrev pub action_get_node : String
action_get_node = "getnode"

abbrev pub action_rebalance_by_scid : String
action_rebalance_by_scid = "rebalancebyscid"

abbrev pub action_rebalance_stop : String
action_rebalance_stop = "stop"

abbrev pub action_rebalance_resume : String
action_rebalance_resume = "resume"

abbrev pub action_pong : String
action_pong = "pong"

abbrev pub action_rebalance_update : String
action_rebalance_update = "rebalanceupdate"

abbrev pub action_rebalance_end : String
action_rebalance_end = "rebalanceend"

abbrev pub action_rebalance_failed : String
action_rebalance_failed = "rebalancefailed"

pub record WebsocketMessage (V : Type 0) : Type 0 where
  pub action : String
  pub data_value : V

-- the fields that a text has: encoding/json leaves the others of the variable alone
pub record Fields (V : Type 0) : Type 0 where
  pub action : Option String
  pub data_value : Option V

abbrev pub merge : {V : Type 0} → Fields V → WebsocketMessage V → WebsocketMessage V
merge u m = record {
  action = get_or m.action u.action;
  data_value = get_or m.data_value u.data_value;
}

-- `I` is glightning.NodeInfo, `N` is glightning.Node, and `P` is types.Peer
pub record ChannelInfo (P : Type 0) : Type 0 where
  pub peer : P
  pub alias : String
  pub color : String

-- the field Data of an answer; `nothing` is nil
pub data Payload (I N P : Type 0) : Type 0 where
  nothing : Payload I N P
  info : I → Payload I N P
  channels : List (ChannelInfo P) → Payload I N P
  node : N → Payload I N P
  -- a Stop or a Resume, which have their message alone
  status : String → Payload I N P
  finished : Types.Result → Payload I N P
  attempted : PrettyRoute → Payload I N P

pub record WebsocketResponse (I N P : Type 0) : Type 0 where
  pub action : String
  pub payload : Payload I N P
  pub error : String

pub record Backend (V I N P L : Type 0) : Type 0 where
  -- websocket.JSON.Send to a connection
  pub send : ℕ → WebsocketResponse I N P → L → Result ℕ × L
  -- glightning's client
  pub get_info : L → Result I × L
  pub list_peers : L → Result (List P) × L
  pub get_node : String → L → Result N × L
  pub request_resume : L → Result String × L
  pub request_stop : L → Result String × L
  pub peer_id : P → String
  pub alias : N → String
  pub color : N → String
  -- mapstructure.Decode, into each of the structures that are asked for
  pub decode_get_node : V → Result String
  pub decode_by_scid : V → Result ByScid
  pub decode_status : V → Result String
  -- err.Error()
  pub text : Error → String

pub data Action : Type 0 where
  get_info list_peers get_node rebalance_by_scid resume stop ping unknown : Action

-- strings.ToLower, as far as it can reach a letter of ASCII: those, the dotted I and the sign of Kelvin
abbrev lower_rune : ℕ → ℕ
lower_rune c =
    if leb b'A' c && leb c b'Z'
    then c + 32
    else if c == 0x130
    then b'i'
    else if c == 0x212A
    then b'k'
    else c

abbrev is_action : String → String → Bool
is_action text name = same_codes (map lower_rune (codes text)) (codes name)

-- the cases of the switch
unfoldable pub action_of : String → Action
unfolding same_codes
action_of text =
    if is_action text action_get_info
    then get_info
    else if is_action text action_list_peers
    then list_peers
    else if is_action text action_get_node
    then get_node
    else if is_action text action_rebalance_by_scid
    then rebalance_by_scid
    else if is_action text action_rebalance_resume
    then resume
    else if is_action text action_rebalance_stop
    then stop
    else if is_action text action_ping
    then ping
    else unknown

module _ {V I N P L : Type 0} (b : Backend V I N P L) where
  abbrev pub failed_text : String → Error → String
  failed_text action e = str_append "could not " (str_append action (str_append ": " (b.text e)))

  abbrev pub send_action_failed : ℕ → String → Error → L → Result ℕ × L
  send_action_failed ws action e =
      b.send ws (record { action = ""; payload = nothing; error = failed_text action e })

  -- the end of forwardRequest: no data, no answer
  abbrev pub send_data : ℕ → String → Payload I N P → L → Result ℕ × L
  send_data ws action nothing l = (ok 0, l)
  send_data ws action payload l =
      b.send ws (record { action = action; payload = payload; error = "" }) l

  -- `req` is the request after mapstructure.Decode, if the action has one
  unfoldable pub forward_request :
      {Q : Type 0} → ℕ → String → Result Q → (Q → L → Result (Payload I N P) × L) → L → Result ℕ × L
  forward_request ws action req cb l = elim req [
    | err e ↦ send_action_failed ws action e l
    | ok q ↦
        let called = cb q l in
        elim called.0 [
          | err e ↦ send_action_failed ws action e called.1
          | ok payload ↦ send_data ws action payload called.1
        ]
  ]

  -- the loop over the peers, which the first error ends
  unfoldable pub describe_peers : List P → L → Result (List (ChannelInfo P)) × L
  describe_peers [] l = (ok [], l)
  describe_peers (p ∷ peers) l =
      let named = b.get_node (b.peer_id p) l in
      elim named.0 [
        | err e ↦ (err e, named.1)
        | ok n ↦
            let rest = describe_peers peers named.1 in
            let one : ChannelInfo P = record { peer = p; alias = b.alias n; color = b.color n } in
            ((do infos ← rest.0; ok (one ∷ infos)), rest.1)
      ]

  -- the functions that the cases give to forwardRequest
  abbrev pub answer : {A : Type 0} → (A → Payload I N P) → Result A × L → Result (Payload I N P) × L
  answer wrap asked = ((do a ← asked.0; ok (wrap a)), asked.1)

  unfoldable pub list_channels : L → Result (List (ChannelInfo P)) × L
  unfolding describe_peers
  list_channels l =
      let listed = b.list_peers l in
      elim listed.0 [ err e ↦ (err e, listed.1) | ok peers ↦ describe_peers peers listed.1 ]

  -- the goroutines that an action starts
  abbrev pub started : Action → V → List ByScid
  started rebalance_by_scid v = elim (b.decode_by_scid v) [ err e ↦ [] | ok r ↦ r ∷ [] ]
  started _ v = []

  -- the case of an action: its answer is sent to `ws`, and the error of the sending is logged
  unfoldable pub serve : ℕ → Action → V → L → Result ℕ × L
  unfolding forward_request list_channels
  serve ws get_info v =
      forward_request ws action_get_info (ok 0) (λ (q : ℕ) l. answer info (b.get_info l))
  serve ws list_peers v =
      forward_request ws action_list_peers (ok 0) (λ (q : ℕ) l. answer channels (list_channels l))
  serve ws get_node v =
      forward_request ws action_get_node (b.decode_get_node v)
        (λ id l. answer node (b.get_node id l))
  serve ws rebalance_by_scid v =
      forward_request ws action_rebalance_by_scid (b.decode_by_scid v) (λ r l. (ok nothing, l))
  serve ws resume v =
      forward_request ws action_rebalance_resume (b.decode_status v)
        (λ m l. answer status (b.request_resume l))
  serve ws stop v =
      forward_request ws action_rebalance_stop (b.decode_status v)
        (λ m l. answer status (b.request_stop l))
  serve ws ping v = b.send ws (record { action = action_pong; payload = nothing; error = "" })
  serve ws unknown v =
      b.send ws (record { action = ""; payload = nothing; error = "unknown action" })
