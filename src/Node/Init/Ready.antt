-- ===== src/Node/Init/Ready.antt =====
-- Init of node/node.go where all that it calls answers: the node that it makes.
use circular.Prelude.{
  ℕ, ap, ◌≡◌, refl, ◌∙◌, sym, subst, String, Bool, false, none, some, List, Map, [], All, str_eq,
  if◌then◌else◌, mul64,
}
use circular.Errors.{Result, ok, err, >>=-eq-ok}
use circular.Lightning.{LightningChannel}
use circular.Graph.Channel.{Channel}
use circular.Graph.Network.WellFormed.{IsWellFormed, Follows}
use circular.Node.State.{Node, Client}
use circular.Node.Files.{Files, path_of, get_graph_from_file}
use circular.Node.Files.Loaded.{IsSound, get_graph_from_file-IsWellFormed}
use circular.Node.Cron.{refresh_graph, refresh_peers, refresh_graph-IsWellFormed}
use circular.Node.Cron.Kept.{
  KeepsSettings, refresh_graph-KeepsSettings, refresh_peers-KeepsSettings,
}
use circular.Node.Options.{
  Options, Cron, circular_dir, minute, or_exit, set_options, setup_cron_jobs, get_int, get_bool,
  start_websocket,
}
use circular.Node.Init.{Starter, Started, new_node, with_db, open_node, fill_node, init}
use circular.Node.Init.Services.{
  HasOptions, AreUp, peered, refresh_graph-IsOk, refresh_peers-IsOk, get_graph_from_file-IsOk,
  setup_cron_jobs-IsOk,
}

ok_inj : {A : Type 0} {a b : A} → ok a ≡ ok b → a ≡ b
ok_inj {A} {a} e = ap (λ (x : Result A). elim x [ ok y ↦ y | err z ↦ a ]) e

or_exit-ok : {A : Type 0} (r : Result A) (a : A) → or_exit r ≡ ok a → r ≡ ok a
or_exit-ok (ok b) a e = e
or_exit-ok (err z) a e = absurd (cc e)

module _ {D T C L : Type 0} (client : Client L) (files : Files T L) (cron : Cron C)
    (starter : Starter D L) where
  module _ (ends : String → String × String)
      (gossip : (l : L) (channels : List LightningChannel)
        → (client.list_channels l).0 ≡ ok channels
        → All (Follows ends) channels)
      (dir : String) (l : L)
      (sound : IsSound ends files (path_of dir "graph.json") (starter.get_info l).1) where
    fill_node-IsWellFormed :
        (now : ℕ) (n m : Node (Unit {0}) L)
        → n.world ≡ l
        → fill_node client files cron starter dir now n ≡ ok m
        → IsWellFormed ends m.graph
    unfolding fill_node
    fill_node-IsWellFormed now n m e filled =
        let (id, known, q) = >>=-eq-ok (or_exit (starter.get_info n.world).0) _ filled in
        let (g, loaded, q₁) =
          >>=-eq-ok (get_graph_from_file files dir "graph.json" (starter.get_info n.world).1) _ q in
        let begun : Node (Unit {0}) L = record n {
          id = id;
          graph = g;
          world = (starter.get_info n.world).1;
        } in
        let ready = refresh_graph client files now begun in
        let (k, refreshed, q₂) = >>=-eq-ok (or_exit ready.0) _ q₁ in
        let (j, listed, q₃) = >>=-eq-ok (or_exit (refresh_peers client files ready.1).0) _ q₂ in
        let (kept, same) = refresh_peers-KeepsSettings client files ready.1 in
        let first : IsWellFormed ends g =
          get_graph_from_file-IsWellFormed ends files dir "graph.json" (starter.get_info l).1 g
            sound
            (subst (λ x. get_graph_from_file files dir "graph.json" (starter.get_info x).1 ≡ ok g) e
              loaded) in
        subst (λ (x : Node (Unit {0}) L). IsWellFormed ends x.graph) (ok_inj q₃)
          (subst (IsWellFormed ends) (sym same)
            (refresh_graph-IsWellFormed client files ends gossip now begun first))

    open_node-graph :
        (options : Options) (n : Node (Unit {0}) L) (s : Started D C L)
        → open_node client files cron starter options dir n ≡ ok s
        → s.node.graph ≡ n.graph
    unfolding open_node
    open_node-graph options n s opened =
        let (d, _, q) = >>=-eq-ok (or_exit (starter.open_db dir n.world).0) _ opened in
        let (jobs, _, q₁) = >>=-eq-ok (setup_cron_jobs cron options) _ q in
        let (endpoint, _, q₂) = >>=-eq-ok (start_websocket options) _ q₁ in
        ap (λ (x : Started D C L). x.node.graph) (sym (ok_inj q₂))

  set_options-world :
      (options : Options) (n m : Node (Unit {0}) L)
      → set_options options n ≡ ok m
      → m.world ≡ n.world
  unfolding set_options
  set_options-world options n m e =
      let (minutes, _, q) = >>=-eq-ok (get_int "circular-liquidity-refresh" options) _ e in
      let (save, _, q₁) = >>=-eq-ok (get_bool "circular-save-stats" options) _ q in
      ap (λ (x : Node (Unit {0}) L). x.world) (sym (ok_inj q₁))

  -- Where Init returns, the graph of the node is well-formed, if gossip reports each channel between its own
  -- nodes, and the file of the graph, if there is one, is sound.
  pub init-IsWellFormed :
      (ends : String → String × String)
      → ((l : L) (channels : List LightningChannel)
          → (client.list_channels l).0 ≡ ok channels
          → All (Follows ends) channels)
      → (options : Options) (dir : String) (now : ℕ) (l : L)
      → IsSound ends files (path_of (path_of dir circular_dir) "graph.json") (starter.get_info l).1
      → (s : Started D C L) → init client files cron starter options dir now (new_node l) ≡ ok s
      → IsWellFormed ends s.node.graph
  unfolding init new_node
  init-IsWellFormed ends gossip options dir now l sound s e =
      let home = path_of dir circular_dir in
      let (set, q, q₁) = >>=-eq-ok (set_options options (new_node l)) _ e in
      let (m, filled, q₂) = >>=-eq-ok (fill_node client files cron starter home now set) _ q₁ in
      subst (IsWellFormed ends) (sym (open_node-graph ends gossip home l sound options m s q₂)) (
        fill_node-IsWellFormed ends gossip home l sound now set m
          (set_options-world options (new_node l) set q) filled)

  module _ (graph_minutes peer_seconds : ℕ) (dir : String) (l : L)
      (up : AreUp client files cron starter graph_minutes peer_seconds dir l) where
    fill_node-IsOk :
        (now : ℕ) (n : Node (Unit {0}) L) (id : String)
        → (starter.get_info l).0 ≡ ok id
        → n.world ≡ l
        → (m : Node (Unit {0}) L) × (fill_node client files cron starter dir now n ≡ ok m)
          × KeepsSettings (record n { id = id }) m
          × ((c : Map Channel) × (m.world ≡ peered client files cron starter l c))
    unfolding fill_node
    fill_node-IsOk now n id e at_l =
        let (g, loaded) = get_graph_from_file-IsOk client files cron starter dir l up in
        let begun : Node (Unit {0}) L = record n {
          id = id;
          graph = g;
          world = (starter.get_info l).1;
        } in
        let ((k, refreshed), (c, world)) =
          refresh_graph-IsOk client files cron starter dir l up now begun in
        let ready = (refresh_graph client files now begun).1 in
        let ((j, listed), world') =
          refresh_peers-IsOk client files cron starter dir l up c ready world in
        let (kept, _) = refresh_peers-KeepsSettings client files ready in
        let set = refresh_graph-KeepsSettings client files now begun in
        (
          (refresh_peers client files ready).1,
          rw (at_l, e, loaded, refreshed, listed) refl,
          (kept.0 ∙ set.0, kept.1 ∙ set.1, kept.2 ∙ set.2, kept.3 ∙ set.3, kept.4 ∙ set.4),
          (c, world'),
        )

  -- Where the options have their types and the calls succeed that Init makes of lightningd, badger,
  -- the file system and cron, each in the world where it is made, Init returns a node with the id
  -- that lightningd reports, neither stopped nor with updates that wait, the statistics as the
  -- option says, the period of the liquidity as the int64 of the minutes in nanoseconds, which
  -- wraps around, and listens on the endpoint unless it is empty; its graph is well-formed, if
  -- gossip reports each channel between its own nodes, and the file of the graph, as the start
  -- finds it, decodes to channels that stand once, under their ids and between their own nodes, or
  -- there is no such file.
  pub init-IsReady :
      (ends : String → String × String)
      → ((l : L) (channels : List LightningChannel)
          → (client.list_channels l).0 ≡ ok channels
          → All (Follows ends) channels)
      → (options : Options) (graph_minutes peer_seconds minutes : ℕ) (save : Bool)
        (endpoint : String) (dir : String) (now : ℕ) (l : L) (id : String)
      → HasOptions options graph_minutes peer_seconds minutes save endpoint
      → AreUp client files cron starter graph_minutes peer_seconds (path_of dir circular_dir) l
      → IsSound ends files (path_of (path_of dir circular_dir) "graph.json") (starter.get_info l).1
      → (starter.get_info l).0 ≡ ok id
      → (s : Started D C L) × (init client files cron starter options dir now (new_node l) ≡ ok s)
        × IsWellFormed ends s.node.graph
        × (s.node.id ≡ id)
        × (s.node.stopped ≡ false)
        × (s.node.save_stats ≡ save)
        × (s.node.liquidity_refresh ≡ mul64 minutes minute)
        × (s.node.updates ≡ [])
        × (s.endpoint ≡ (if str_eq endpoint "" then none else some endpoint))
  unfolding init open_node set_options new_node start_websocket
  init-IsReady ends gossip options graph_minutes peer_seconds minutes save endpoint dir now l id has
        up sound e =
      let home = path_of dir circular_dir in
      let set : Node (Unit {0}) L = record (new_node l) {
        liquidity_refresh = mul64 minutes minute;
        save_stats = save;
      } in
      let (m, filled, kept, (c, world)) =
        fill_node-IsOk graph_minutes peer_seconds home l up now set id e refl in
      let (d, opened) = up.opens c in
      let opened' : (starter.open_db home m.world).0 ≡ ok d = rw world opened in
      let (jobs, added) = setup_cron_jobs-IsOk client files cron starter home l up has in
      (
        record {
          node = with_db d (starter.open_db home m.world).1 m;
          jobs = jobs;
          endpoint = if str_eq endpoint "" then none else some endpoint;
        },
        rw (has.liquidity_refresh, has.save_stats, filled, opened', added, has.websocket) refl,
        fill_node-IsWellFormed ends gossip home l sound now set m refl filled,
        kept.0,
        kept.1,
        kept.2,
        kept.3,
        kept.4,
        refl,
      )
