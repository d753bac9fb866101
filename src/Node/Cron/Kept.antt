-- ===== src/Node/Cron/Kept.antt =====
-- What the cron jobs of node/cron.go leave alone.
use circular.Prelude.{◌≡◌, refl, ℕ, inl, inr}
use circular.Errors.{Result-cases}
use circular.Node.State.{Node, Client}
use circular.Node.Files.{Files}
use circular.Node.Cron.{refresh_graph, refresh_peers}

-- the settings of the node, which no refresh changes
abbrev pub KeepsSettings : {B L : Type 0} → Node B L → Node B L → Type 0
KeepsSettings n m =
    (m.id ≡ n.id)
    × (m.stopped ≡ n.stopped)
    × (m.save_stats ≡ n.save_stats)
    × (m.liquidity_refresh ≡ n.liquidity_refresh)
    × (m.updates ≡ n.updates)

module _ {T L : Type 0} (client : Client L) (files : Files T L) where
  pub refresh_graph-KeepsSettings :
      {B : Type 0} (now : ℕ) (n : Node B L) → KeepsSettings n (refresh_graph client files now n).1
  unfolding refresh_graph
  refresh_graph-KeepsSettings now n = elim (Result-cases (client.list_channels n.world).0) [
    | inl (e, q) ↦ rw (q, refresh_graph) (refl, refl, refl, refl, refl)
    | inr (channels, q) ↦
        elim (Result-cases (client.list_nodes (client.list_channels n.world).1).0) [
          | inl (e, q') ↦
              rw (q, refresh_graph) (rw (q', refresh_graph) (refl, refl, refl, refl, refl))
          | inr (nodes, q') ↦
              rw (q, refresh_graph) (rw (q', refresh_graph) (refl, refl, refl, refl, refl))
        ]
  ]

  pub refresh_peers-KeepsSettings :
      {B : Type 0} (n : Node B L)
      → KeepsSettings n (refresh_peers client files n).1
        × ((refresh_peers client files n).1.graph ≡ n.graph)
  unfolding refresh_peers
  refresh_peers-KeepsSettings n = elim (Result-cases (client.list_peers n.world).0) [
    | inl (e, q) ↦ rw (q, refresh_peers) ((refl, refl, refl, refl, refl), refl)
    | inr (peers, q) ↦ rw (q, refresh_peers) ((refl, refl, refl, refl, refl), refl)
  ]
