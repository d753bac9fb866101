-- ===== src/Node/Cron.antt =====
-- node/cron.go: the work of the cron jobs on the node. Node/Options starts them.
pub mod Kept
use circular.Prelude.{
  ltb, i64_half, u64_mod, sub64, if◌then◌else◌, ◌-◌, ◌/◌, ℕ, ◌≡◌, String, List, [], ◌∷◌, Map,
  insert, All, inl, inr,
}
use circular.Errors.{Result, ok, err, Result-cases}
use circular.Lightning.{LightningChannel, LightningNode, Peer}
use circular.Graph.Network.{
  Graph, refresh_channels, prune_channels, refresh_aliases, refresh_liquidity,
}
use circular.Graph.Network.WellFormed.{IsWellFormed, Follows, refresh_channels-IsWellFormed}
use circular.Graph.Network.Prune.{prune_channels-IsWellFormed}
use circular.Node.State.{Node, Client}
use circular.Node.Files.{Files, save_graph_to_file}

-- for _, peer := range peers
unfoldable pub put_peers : List Peer → Map Peer → Map Peer
put_peers [] peers = peers
put_peers (p ∷ list) peers = put_peers list (insert p.id p peers)

module _ {D T L : Type 0} (client : Client L) (files : Files T L) where
  unfoldable pub refresh_graph : ℕ → Node D L → Result ℕ × Node D L
  unfolding refresh_channels prune_channels refresh_aliases
  refresh_graph now n =
      let listed = client.list_channels n.world in
      elim listed.0 [
        | err e ↦ (err e, record n { world = listed.1 })
        | ok channels ↦
            let pruned = prune_channels now (refresh_channels channels n.graph) in
            let named = client.list_nodes listed.1 in
            elim named.0 [
              | err e ↦ (err e, record n { world = named.1; graph = pruned })
              | ok nodes ↦
                  let g = refresh_aliases nodes pruned in
                  let saved = save_graph_to_file files "circular" "graph.json" g named.1 in
                  (saved.0, record n { world = saved.1; graph = g })
            ]
      ]

  unfoldable pub refresh_peers : Node D L → Result ℕ × Node D L
  unfolding put_peers
  refresh_peers n =
      let listed = client.list_peers n.world in
      elim listed.0 [
        | err e ↦ (err e, record n { world = listed.1 })
        | ok peers ↦ (ok 0, record n { world = listed.1; peers = put_peers peers n.peers })
      ]

-- int64(d.Seconds()), with the seconds as an exact number: the fraction is dropped, towards 0
abbrev pub seconds : ℕ → ℕ
seconds d = if ltb d i64_half then d / 1000000000 else sub64 0 ((u64_mod - d) / 1000000000)

-- refreshLiquidity, with the count that it logs
unfoldable pub refresh_node_liquidity : {D L : Type 0} → ℕ → Node D L → Node D L × ℕ
unfolding refresh_liquidity
refresh_node_liquidity now n =
    let refreshed = refresh_liquidity (seconds n.liquidity_refresh) now n.graph in
    (record n { graph = refreshed.0 }, refreshed.1)

aliases-IsWellFormed :
    (ends : String → String × String) (nodes : List LightningNode) (g : Graph)
    → IsWellFormed ends g
    → IsWellFormed ends (refresh_aliases nodes g)
unfolding refresh_aliases
aliases-IsWellFormed ends [] g w = w
aliases-IsWellFormed ends (n ∷ nodes) g w =
    aliases-IsWellFormed ends nodes (record g { aliases = insert n.id n.alias g.aliases })
      (record { keyed = w.keyed; placed = w.placed; synced = w.synced; routed = w.routed })

module _ {D T L : Type 0} (client : Client L) (files : Files T L) (ends : String → String × String)
    (gossip : (l : L) (channels : List LightningChannel)
      → (client.list_channels l).0 ≡ ok channels
      → All (Follows ends) channels) where
  -- refreshGraph keeps the graph of the node well-formed, on its error paths too, if gossip reports
  -- each channel between its own nodes.
  pub refresh_graph-IsWellFormed :
      (now : ℕ) (n : Node D L)
      → IsWellFormed ends n.graph
      → IsWellFormed ends (refresh_graph client files now n).1.graph
  unfolding refresh_graph
  refresh_graph-IsWellFormed now n w = elim (Result-cases (client.list_channels n.world).0) [
    | inl (e, q) ↦ rw (q, refresh_graph) w
    | inr (channels, q) ↦
        let pruned =
          prune_channels-IsWellFormed ends now _
            (refresh_channels-IsWellFormed ends channels n.graph w (gossip n.world channels q)) in
        elim (Result-cases (client.list_nodes (client.list_channels n.world).1).0) [
          | inl (e, q') ↦ rw (q, refresh_graph) (rw (q', refresh_graph) pruned)
          | inr (nodes, q') ↦
              rw (q, refresh_graph)
                (rw (q', refresh_graph) (aliases-IsWellFormed ends nodes _ pruned))
        ]
  ]
