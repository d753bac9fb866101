-- ===== src/Node/Sockets/Answers.antt =====
-- handleWebsocket of node/websocket.go: what a message is answered.
use mathlib.Core.List.{append-nil}
use circular.Prelude.{
  ◌≡◌, refl, ◌∙◌, sym, ap, ◌⊎◌, inl, inr, ℕ, String, List, [], ◌∷◌, ◌++◌, map, none, true, ◌==◌,
  arith,
}
use circular.Errors.{Result, ok, err, ◌>>=◌, >>=-eq-ok, Result-cases}
use circular.Rebalance.Commands.{ByScid}
use circular.Node.Sockets.Requests.{
  WebsocketMessage, Fields, merge, Payload, nothing, info, channels, node, status,
  WebsocketResponse, Backend, Action, get_info, list_peers, get_node, rebalance_by_scid, resume,
  stop, ping, unknown, action_of, failed_text, send_data, forward_request, answer, serve, started,
  ChannelInfo, describe_peers, list_channels, action_get_info, action_list_peers, action_get_node,
  action_rebalance_by_scid, action_rebalance_resume, action_rebalance_stop, action_pong,
}
use circular.Node.Sockets.{Sockets, received, store, serve_message, handle, handle_all}

module _ {V I N P L : Type 0} (b : Backend V I N P L) where
  -- what lightningd is asked for an action, and the world after the request, which sends nothing
  abbrev pub request : Action → V → L → Result (Payload I N P) × L
  request get_info v l = answer b info (b.get_info l)
  request list_peers v l = answer b channels (list_channels b l)
  request get_node v l = elim (b.decode_get_node v) [
    | err e ↦ (err e, l)
    | ok id ↦ answer b node (b.get_node id l)
  ]
  request rebalance_by_scid v l = ((do _ ← b.decode_by_scid v; ok nothing), l)
  request resume v l = elim (b.decode_status v) [
    | err e ↦ (err e, l)
    | ok _ ↦ answer b status (b.request_resume l)
  ]
  request stop v l = elim (b.decode_status v) [
    | err e ↦ (err e, l)
    | ok _ ↦ answer b status (b.request_stop l)
  ]
  request ping v l = (ok nothing, l)
  request unknown v l = (ok nothing, l)

  -- the answer that stands for a result
  abbrev reply : String → Result (Payload I N P) → WebsocketResponse I N P
  reply action (err e) = record { action = ""; payload = nothing; error = failed_text b action e }
  reply action (ok payload) = record { action = action; payload = payload; error = "" }

  abbrev pub response : Action → Result (Payload I N P) → WebsocketResponse I N P
  response get_info r = reply action_get_info r
  response list_peers r = reply action_list_peers r
  response get_node r = reply action_get_node r
  response rebalance_by_scid r = reply action_rebalance_by_scid r
  response resume r = reply action_rebalance_resume r
  response stop r = reply action_rebalance_stop r
  response ping r = reply action_pong r
  response unknown r = record { action = ""; payload = nothing; error = "unknown action" }

  -- the world after the request and one message to the connection `ws`
  abbrev pub sent_once : ℕ → Action → V → L → L
  sent_once ws action v l =
      let asked = request action v l in (b.send ws (response action asked.0) asked.1).1

  forward_request-sends :
      {A Q : Type 0} (ws : ℕ) (action : String) (wrap : A → Payload I N P)
      (carried : (a : A) (l : L)
        → send_data b ws action (wrap a) l
          ≡ b.send ws (record { action = action; payload = wrap a; error = "" }) l)
      (req : Result Q) (ask : Q → L → Result A × L) (l : L)
      → let asked : Result (Payload I N P) × L = elim req [
        | err e ↦ (err e, l)
        | ok q ↦ answer b wrap (ask q l)
      ] in
        (forward_request b ws action req (λ q from. answer b wrap (ask q from)) l).1
        ≡ (b.send ws (reply action asked.0) asked.1).1
  unfolding forward_request
  forward_request-sends ws action wrap carried (err e) ask l = refl
  forward_request-sends ws action wrap carried (ok q) ask l = elim (Result-cases (ask q l).0) [
    | inl (e, p) ↦ rw (p, forward_request) refl
    | inr (a, p) ↦ rw (p, forward_request) (ap (λ x. x.1) (carried a _))
  ]

  -- what a message starts
  abbrev pub IsServed : ℕ → WebsocketMessage V → Sockets V L → Sockets V L → Type 0
  IsServed ws m s s' =
      ((s'.world ≡ sent_once ws (action_of m.action) m.data_value s.world)
        × (s'.pending ≡ s.pending))
      ⊎ ((r : ByScid) × (action_of m.action ≡ rebalance_by_scid)
          × (b.decode_by_scid m.data_value ≡ ok r)
          × (s'.world ≡ s.world)
          × (s'.pending ≡ s.pending ++ r ∷ []))

  serve-sends :
      (ws : ℕ) (action : Action) (v : V) (l : L)
      → (((serve b ws action v l).1 ≡ sent_once ws action v l) × (started b action v ≡ []))
        ⊎ ((r : ByScid) × (action ≡ rebalance_by_scid)
            × (b.decode_by_scid v ≡ ok r)
            × ((serve b ws action v l).1 ≡ l)
            × (started b action v ≡ r ∷ []))
  unfolding serve
  serve-sends ws get_info v l =
      inl
        (forward_request-sends {Q = ℕ} ws _ info (λ a x. refl) (ok 0) (λ q x. b.get_info x) l, refl)
  serve-sends ws list_peers v l = inl (
    forward_request-sends {Q = ℕ} ws _ channels (λ a x. refl) (ok 0) (λ q x. list_channels b x) l,
    refl,
  )
  serve-sends ws get_node v l = inl (
    forward_request-sends ws _ node (λ a x. refl) (b.decode_get_node v) (λ id x. b.get_node id x) l,
    refl,
  )
  serve-sends ws rebalance_by_scid v l = elim (Result-cases (b.decode_by_scid v)) [
    | inl (e, p) ↦ inl (rw (p, serve, sent_once) refl, rw (p, started) refl)
    | inr (r, p) ↦ inr (r, refl, p, rw (p, serve) refl, rw (p, started) refl)
  ]
  serve-sends ws resume v l = inl (
    forward_request-sends ws _ status (λ a x. refl) (b.decode_status v) (λ m x. b.request_resume x)
        l,
    refl,
  )
  serve-sends ws stop v l = inl (
    forward_request-sends ws _ status (λ a x. refl) (b.decode_status v) (λ m x. b.request_stop x) l,
    refl,
  )
  serve-sends ws ping v l = inl (refl, refl)
  serve-sends ws unknown v l = inl (refl, refl)

  -- For every message, either lightningd is asked what the action says, then its connection is sent
  -- one message and nothing else is done: the action with the payload that lightningd has given, or
  -- the error that names the action, or that the action is unknown, and no rebalance is started; or
  -- the action is rebalancebyscid, its data decode to a command, that command is started, and
  -- nothing is sent.
  pub serve_message-IsServed :
      (ws : ℕ) (m : WebsocketMessage V) (s : Sockets V L) → IsServed ws m s (serve_message b ws m s)
  unfolding serve_message
  serve_message-IsServed ws m s = elim (serve-sends ws (action_of m.action) m.data_value s.world) [
    | inl (sent, none_started) ↦
        inl (sent, ap (λ l. s.pending ++ l) none_started ∙ append-nil s.pending)
    | inr (r, same, decoded, quiet, one) ↦
        inr (r, same, decoded, quiet, ap (λ l. s.pending ++ l) one)
  ]

  describe_peers-peers :
      (peers : List P) (l : L) (infos : List (ChannelInfo P))
      → (describe_peers b peers l).0 ≡ ok infos
      → map (λ c. c.peer) infos ≡ peers
  unfolding describe_peers
  describe_peers-peers [] l infos e = ground arith
  describe_peers-peers (p ∷ peers) l infos e = elim (Result-cases (b.get_node (b.peer_id p) l).0) [
    | inl (problem, q) ↦ absurd (cc (rw (q, describe_peers) at e))
    | inr (n, q) ↦
        let (rest, described, done) =
          >>=-eq-ok (describe_peers b peers (b.get_node (b.peer_id p) l).1).0 _
            (rw (q, describe_peers) at e) in
        let same = describe_peers-peers peers _ rest described in ground (arith, same)
  ]

  -- Where listpeers has an answer, it describes the peers that lightningd lists, each once and in
  -- their order.
  pub list_channels-peers :
      (l : L) (infos : List (ChannelInfo P))
      → (list_channels b l).0 ≡ ok infos
      → (b.list_peers l).0 ≡ ok (map (λ c. c.peer) infos)
  unfolding list_channels
  list_channels-peers l infos e = elim (Result-cases (b.list_peers l).0) [
    | inl (problem, q) ↦ absurd (cc (rw (q, list_channels) at e))
    | inr (peers, q) ↦
        q ∙ ap ok (sym (describe_peers-peers peers _ infos (rw (q, list_channels) at e)))
  ]

  merge-merge : (u : Fields V) (m : WebsocketMessage V) → merge u (merge u m) ≡ merge u m
  merge-merge u m = ground arith

  -- A message without an action and without data, behind a message of the same connection, is
  -- served as that message once more.
  pub received-repeats :
      (empty : WebsocketMessage V) (ws : ℕ) (fields : Fields V) (s : Sockets V L)
      → let blank : Fields V = record { action = none; data_value = none } in
        handle_all b empty (received ws fields ∷ received ws blank ∷ []) s
        ≡ handle_all b empty (received ws fields ∷ received ws fields ∷ []) s
  unfolding handle_all handle
  received-repeats empty ws fields s =
      let same : ws == ws ≡ true = ground arith in
      let once =
        serve_message b ws (merge fields (s.data_of ws))
          (store b ws (merge fields (s.data_of ws)) s) in
      rw same (
        sym
          (ap (λ m. serve_message b ws m (store b ws m once)) (merge-merge fields (s.data_of ws))))
