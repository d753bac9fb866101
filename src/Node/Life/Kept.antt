-- ===== src/Node/Life/Kept.antt =====
-- What a life of the node keeps: the graph stays well-formed, and a plugin that is stopped stays so.
use circular.Prelude.{
  ℕ, ◌≡◌, refl, ◌∙◌, sym, subst, ap, String, Bool, true, false, List, ◌∷◌, [], All, inl, inr,
  List-cases,
}
use circular.Errors.{Result, ok, err, >>=-eq-ok, Result-cases}
use circular.Lightning.{LightningChannel}
use circular.Graph.Route.{PrettyRoute}
use circular.Graph.Network.{Graph}
use circular.Graph.Network.WellFormed.{IsWellFormed, Follows}
use circular.Graph.Network.Beliefs.{update_channel-IsWellFormed, refresh_liquidity-IsWellFormed}
use circular.Node.Store.{Badger, Json, success_prefix, failure_prefix, route_prefix}
use circular.Node.State.{Node, Client}
use circular.Node.Files.{Files}
use circular.Node.Cron.{seconds, refresh_node_liquidity, refresh_graph-IsWellFormed}
use circular.Node.Cron.Kept.{refresh_graph-KeepsSettings, refresh_peers-KeepsSettings}
use circular.Node.Control.{call_stop, call_resume}
use circular.Node.Stats.{delete_stats}
use circular.Node.Payments.{update_liquidity}
use circular.Node.Payments.Kept.{
  Keeps, generate-Keeps, send_pay-Keeps, on_payment_failure-Keeps, on_payment_success-Keeps,
}
use circular.Node.Peers.{update_channel_balance}
use circular.Node.Instance.{move_balance}
use circular.Node.Life.{
  Turn, graph_refreshed, peers_refreshed, liquidity_refreshed, liquidity_learned, failed, succeeded,
  connected, disconnected, stats_deleted, stopped, generated, sent, saved, announced, moved, Life,
  here, next, resumed, on_send_pay_failure, on_send_pay_success, on_connect_event,
  on_disconnect_event,
}

module _ {D T L : Type 0} (b : Badger D) (json : Json) (client : Client L) (files : Files T L)
    (announce : PrettyRoute → L → L) where
  delete_stats-Keeps : (n : Node D L) → Keeps b json client n (delete_stats b json n).1
  unfolding delete_stats
  delete_stats-Keeps n =
      elim (Result-cases
        (b.drop_prefix (success_prefix ∷ failure_prefix ∷ route_prefix ∷ []) n.db).0) [
          | inl (e, q) ↦ rw (q, delete_stats) (refl, refl)
          | inr (k, q) ↦ rw (q, delete_stats) (refl, refl)
        ]

  move_balance-Keeps :
      (n m : Node D L) (out_peer in_peer out_scid in_scid : String) (amount : ℕ)
      → move_balance out_peer in_peer out_scid in_scid amount n ≡ ok m
      → Keeps b json client n m
  move_balance-Keeps n m out_peer in_peer out_scid in_scid amount e =
      let (peers, q, made) =
        >>=-eq-ok (update_channel_balance n.peers out_peer in_peer out_scid in_scid amount) _ e in
      let same = ap (λ (x : Result (Node D L)). elim x [ ok y ↦ y | err problem ↦ n ]) made in
      (sym (ap (λ y. y.graph) same), sym (ap (λ y. y.stopped) same))

  module _ (ends : String → String × String)
      (gossip : (l : L) (channels : List LightningChannel)
        → (client.list_channels l).0 ≡ ok channels
        → All (Follows ends) channels) where
    same_graph : {g h : Graph} → h ≡ g → IsWellFormed ends g → IsWellFormed ends h
    same_graph e w = subst (IsWellFormed ends) (sym e) w

    update_liquidity-IsWellFormed :
        (now : ℕ) (n : Node D L)
        → IsWellFormed ends n.graph
        → IsWellFormed ends (update_liquidity now n).graph
    unfolding update_liquidity
    update_liquidity-IsWellFormed now n w = elim (List-cases n.updates) [
      | inl e ↦ rw (e, update_liquidity) w
      | inr (u, rest, e) ↦
          rw (e, update_liquidity) (update_channel-IsWellFormed ends _ _ _ now n.graph w)
    ]

    Turn-IsWellFormed :
        {n m : Node D L}
        → Turn b json client files announce n m
        → IsWellFormed ends n.graph
        → IsWellFormed ends m.graph
    unfolding refresh_node_liquidity call_stop on_send_pay_failure on_send_pay_success
        on_connect_event on_disconnect_event
    Turn-IsWellFormed (graph_refreshed n now) w =
        refresh_graph-IsWellFormed client files ends gossip now n w
    Turn-IsWellFormed (peers_refreshed n) w =
        same_graph (refresh_peers-KeepsSettings client files n).1 w
    Turn-IsWellFormed (liquidity_refreshed n now) w =
        refresh_liquidity-IsWellFormed ends (seconds n.liquidity_refresh) now n.graph w
    Turn-IsWellFormed (liquidity_learned n now) w = update_liquidity-IsWellFormed now n w
    Turn-IsWellFormed (failed n sf) w = same_graph (on_payment_failure-Keeps b json client sf n).0 w
    Turn-IsWellFormed (succeeded n ss) w =
        same_graph (on_payment_success-Keeps b json client ss n).0 w
    Turn-IsWellFormed (connected n id) w = w
    Turn-IsWellFormed (disconnected n id) w = w
    Turn-IsWellFormed (stats_deleted n) w = same_graph (delete_stats-Keeps n).0 w
    Turn-IsWellFormed (stopped n) w = w
    Turn-IsWellFormed (generated n) w = same_graph (generate-Keeps b json client n).0 w
    Turn-IsWellFormed (sent n r hash) w = same_graph (send_pay-Keeps b json client r hash n).0 w
    Turn-IsWellFormed (saved n key v) w = w
    Turn-IsWellFormed (announced n route) w = w
    Turn-IsWellFormed (moved n m out_peer in_peer out_scid in_scid amount e) w =
        same_graph (move_balance-Keeps n m out_peer in_peer out_scid in_scid amount e).0 w

    -- Every turn of the life of a node keeps its graph well-formed.
    pub Life-IsWellFormed :
        {n m : Node D L} {x : Bool}
        → IsWellFormed ends n.graph
        → Life b json client files announce n x m
        → IsWellFormed ends m.graph
    unfolding call_resume
    Life-IsWellFormed w here = w
    Life-IsWellFormed w (next life t) = Turn-IsWellFormed t (Life-IsWellFormed w life)
    Life-IsWellFormed w (resumed life) = Life-IsWellFormed w life

  stopped-update_liquidity : (now : ℕ) (n : Node D L) → (update_liquidity now n).stopped ≡ n.stopped
  unfolding update_liquidity
  stopped-update_liquidity now n = elim (List-cases n.updates) [
    | inl e ↦ rw (e, update_liquidity) refl
    | inr (u, rest, e) ↦ rw (e, update_liquidity) refl
  ]

  Turn-stopped :
      {n m : Node D L} → Turn b json client files announce n m → n.stopped ≡ true → m.stopped ≡ true
  unfolding refresh_node_liquidity call_stop on_send_pay_failure on_send_pay_success
      on_connect_event on_disconnect_event
  Turn-stopped (graph_refreshed n now) s = (refresh_graph-KeepsSettings client files now n).1 ∙ s
  Turn-stopped (peers_refreshed n) s = (refresh_peers-KeepsSettings client files n).0.1 ∙ s
  Turn-stopped (liquidity_refreshed n now) s = s
  Turn-stopped (liquidity_learned n now) s = stopped-update_liquidity now n ∙ s
  Turn-stopped (failed n sf) s = (on_payment_failure-Keeps b json client sf n).1 ∙ s
  Turn-stopped (succeeded n ss) s = (on_payment_success-Keeps b json client ss n).1 ∙ s
  Turn-stopped (connected n id) s = s
  Turn-stopped (disconnected n id) s = s
  Turn-stopped (stats_deleted n) s = (delete_stats-Keeps n).1 ∙ s
  Turn-stopped (stopped n) s = refl
  Turn-stopped (generated n) s = (generate-Keeps b json client n).1 ∙ s
  Turn-stopped (sent n r hash) s = (send_pay-Keeps b json client r hash n).1 ∙ s
  Turn-stopped (saved n key v) s = s
  Turn-stopped (announced n route) s = s
  Turn-stopped (moved n m out_peer in_peer out_scid in_scid amount e) s =
      (move_balance-Keeps n m out_peer in_peer out_scid in_scid amount e).1 ∙ s

  pub Life-stopped :
      {n m : Node D L} {x : Bool}
      → x ≡ false
      → n.stopped ≡ true
      → Life b json client files announce n x m
      → m.stopped ≡ true
  Life-stopped q s here = s
  Life-stopped q s (next life t) = Turn-stopped t (Life-stopped q s life)
  Life-stopped q s (resumed life) = absurd (cc q)
