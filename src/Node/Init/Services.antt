-- ===== src/Node/Init/Services.antt =====
-- Init of node/node.go where all that it calls answers.
use Prim.Native.String.{◌++◌ as str_append}
use circular.Prelude.{ℕ, ◌≡◌, refl, ap, String, Bool, some, Map, lookup, itoa, inl, inr, ◌⊎◌}
use circular.Errors.{Result, ok, err, Result-cases, no_graph_to_load}
use circular.Graph.Channel.{Channel}
use circular.Graph.Network.{Graph, new_graph, refresh_channels, prune_channels, refresh_aliases}
use circular.Node.State.{Node, Client}
use circular.Node.Files.{
  Files, path_of, old_name, tmp_name, loaded, make_dir, open_graph, load_graph_from_file,
  get_graph_from_file, serialize_to_file, save_graph_to_file, keep_old,
}
use circular.Node.Cron.{refresh_graph, refresh_peers}
use circular.Node.Options.{
  int, bool, string, Options, Cron, refreshing_graph, refreshing_peers, refreshing_liquidity,
  liquidity_refresh_interval, option_websocket_endpoint, setup_cron_jobs,
}
use circular.Node.Init.{Starter}

abbrev pub IsOk {ℓ} : {A : Type ℓ} → Result A → Type ℓ
IsOk {A = A} r = (a : A) × (r ≡ ok a)

-- the options that Init reads, with their values
pub record HasOptions (options : Options) (graph_minutes peer_seconds minutes : ℕ) (save : Bool)
    (endpoint : String) : Type 0 where
  pub graph_refresh : lookup "circular-graph-refresh" options ≡ some (int graph_minutes)
  pub peer_refresh : lookup "circular-peer-refresh" options ≡ some (int peer_seconds)
  pub liquidity_refresh : lookup "circular-liquidity-refresh" options ≡ some (int minutes)
  pub save_stats : lookup "circular-save-stats" options ≡ some (bool save)
  pub websocket : lookup option_websocket_endpoint options ≡ some (string endpoint)

open_graph-cases :
    {T L : Type 0} (files : Files T L) (name : String) (l : L)
    → IsOk (open_graph files name l) ⊎ (open_graph files name l ≡ err no_graph_to_load)
unfolding open_graph
open_graph-cases files name l = elim (Result-cases (files.open_file name l)) [
  | inr (text, e) ↦ inl (text, rw (e, open_graph) refl)
  | inl (problem, e) ↦ elim (Result-cases (files.open_file (old_name name) l)) [
    | inr (text, q) ↦ inl (text, rw (e, open_graph) (rw (q, open_graph) refl))
    | inl (other, q) ↦ inr (rw (e, open_graph) (rw (q, open_graph) refl))
  ]
]

abbrev pub graph_name : String
graph_name = path_of "circular" "graph.json"

module _ {D T C L : Type 0} (client : Client L) (files : Files T L) (cron : Cron C)
    (starter : Starter D L) where
  -- The worlds that Init comes through from `l` on, where its calls succeed: after GetInfo, after each part of
  -- refreshGraph, where it saves the channels `m`, and after ListPeers.
  module _ (l : L) where
    abbrev pub asked : L
    asked = (starter.get_info l).1

    abbrev listed : L
    listed = (client.list_channels asked).1

    abbrev named : L
    named = (client.list_nodes listed).1

    abbrev made : L
    made = (make_dir files "circular" named).1

    abbrev created : L
    created = (files.create (tmp_name graph_name) made).1

    abbrev kept : Map Channel → L
    kept m = keep_old files graph_name (files.encode (tmp_name graph_name) m created).1

    abbrev saved : Map Channel → L
    saved m = (files.rename (tmp_name graph_name) graph_name (kept m)).1

    abbrev pub peered : Map Channel → L
    peered m = (client.list_peers (saved m)).1

  -- the three jobs are accepted, one after the other
  abbrev Accepts : ℕ → ℕ → Type 0
  Accepts graph_minutes peer_seconds =
      (c : C) × (cron.add_func (str_append "@every " (str_append (itoa graph_minutes) "m"))
          refreshing_graph cron.new
        ≡ ok c)
      × (d : C) × (cron.add_func (str_append "@every " (str_append (itoa peer_seconds) "s"))
            refreshing_peers c
          ≡ ok d)
      × IsOk (
          cron.add_func (str_append "@every " (str_append (itoa liquidity_refresh_interval) "m"))
            refreshing_liquidity d)

  -- The calls that Init makes from the world `l` on succeed: those of lightningd, of badger in `dir`, of the
  -- file system, whatever channels are saved, and of cron.
  pub record AreUp (graph_minutes peer_seconds : ℕ) (dir : String) (l : L) : Type 0 where
    pub knows : IsOk (starter.get_info l).0
    pub decodes :
        (text : T)
        → open_graph files (path_of dir "graph.json") (asked l) ≡ ok text
        → IsOk (files.decode text)
    pub lists_channels : IsOk (client.list_channels (asked l)).0
    pub lists_nodes : IsOk (client.list_nodes (listed l)).0
    pub makes : IsOk (make_dir files "circular" (named l)).0
    pub creates : IsOk (files.create (tmp_name graph_name) (made l)).0
    pub encodes : (m : Map Channel) → IsOk (files.encode (tmp_name graph_name) m (created l)).0
    pub renames :
        (m : Map Channel) → IsOk (files.rename (tmp_name graph_name) graph_name (kept l m)).0
    pub lists_peers : (m : Map Channel) → IsOk (client.list_peers (saved l m)).0
    pub opens : (m : Map Channel) → IsOk (starter.open_db dir (peered l m)).0
    pub accepts : Accepts graph_minutes peer_seconds

  module _ {graph_minutes peer_seconds : ℕ} (dir : String) (l : L)
      (up : AreUp graph_minutes peer_seconds dir l) where
    serialize_to_file-eq :
        (g : Graph)
        → serialize_to_file files graph_name g (made l)
          ≡ files.encode (tmp_name graph_name) g.channels (created l)
    unfolding serialize_to_file
    serialize_to_file-eq g = let (_, new) = up.creates in rw (new, serialize_to_file) refl

    save_graph_to_file-IsOk :
        (g : Graph)
        → IsOk (save_graph_to_file files "circular" "graph.json" g (named l)).0
          × ((save_graph_to_file files "circular" "graph.json" g (named l)).1 ≡ saved l g.channels)
    unfolding save_graph_to_file
    save_graph_to_file-IsOk g =
        let (_, there) = up.makes in
        let (_, written) = up.encodes g.channels in
        rw (there, save_graph_to_file)
          (rw (serialize_to_file-eq g, save_graph_to_file)
            (rw (written, save_graph_to_file)
              (rw (serialize_to_file-eq g) (up.renames g.channels, refl))))

    -- refreshGraph succeeds in the world after GetInfo, and saves some channels
    pub refresh_graph-IsOk :
        {B : Type 0} (now : ℕ) (n : Node B L)
        → let refreshed = refresh_graph client files now (record n { world = asked l }) in
          IsOk refreshed.0 × ((m : Map Channel) × (refreshed.1.world ≡ saved l m))
    unfolding refresh_graph
    refresh_graph-IsOk now n =
        let (channels, q) = up.lists_channels in
        let (nodes, q') = up.lists_nodes in
        let g = refresh_aliases nodes (prune_channels now (refresh_channels channels n.graph)) in
        let (succeeds, world) = save_graph_to_file-IsOk g in
        rw (q, refresh_graph) (rw (q', refresh_graph) (succeeds, (g.channels, world)))

    -- and then ListPeers does
    pub refresh_peers-IsOk :
        {B : Type 0} (m : Map Channel) (n : Node B L)
        → n.world ≡ saved l m
        → IsOk (refresh_peers client files n).0
          × ((refresh_peers client files n).1.world ≡ peered l m)
    unfolding refresh_peers
    refresh_peers-IsOk m n e =
        let (peers, q) = up.lists_peers m in
        let q' : (client.list_peers n.world).0 ≡ ok peers = rw e q in
        rw (q', refresh_peers) ((0, refl), ap (λ x. (client.list_peers x).1) e)

    pub get_graph_from_file-IsOk : IsOk (get_graph_from_file files dir "graph.json" (asked l))
    unfolding get_graph_from_file load_graph_from_file
    get_graph_from_file-IsOk = elim (open_graph-cases files (path_of dir "graph.json") (asked l)) [
      | inl (text, e) ↦
          let (m, q) = up.decodes text e in
          rw (e, get_graph_from_file, load_graph_from_file) (rw q (loaded m, refl))
      | inr e ↦ rw (e, get_graph_from_file, load_graph_from_file) (new_graph, refl)
    ]

    pub setup_cron_jobs-IsOk :
        {options : Options} {minutes : ℕ} {save : Bool} {endpoint : String}
        → HasOptions options graph_minutes peer_seconds minutes save endpoint
        → IsOk (setup_cron_jobs cron options)
    unfolding setup_cron_jobs
    setup_cron_jobs-IsOk has =
        let (c, e, d, q, (f, r)) = up.accepts in
        rw (has.graph_refresh, e, has.peer_refresh, q, r) (f, refl)
