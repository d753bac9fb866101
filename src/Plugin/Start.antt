-- ===== src/Plugin/Start.antt =====
-- cmd/circular/main.go: main, as far as it registers, and onInit. The files of stderr and the client of lightningd are a
-- parameter: the record `Host`.
use Prim.Native.String.{◌++◌ as str_append}
use circular.Prelude.{ℕ, ◌≡◌, sym, ap, ◌∙◌, String, Bool, some, lookup, List, All, itoa}
use circular.Errors.{Result, ok, err, ◌>>=◌, >>=-eq-ok}
use circular.Lightning.{LightningChannel}
use circular.Graph.Route.{PrettyRoute}
use circular.Graph.Network.WellFormed.{IsWellFormed, Follows}
use circular.Node.State.{Node, Client}
use circular.Node.Store.{Badger, Json}
use circular.Node.Files.{Files, path_of, make_dir}
use circular.Node.Files.Loaded.{IsSound}
use circular.Node.Options.{int, Options, Cron, circular_dir, or_exit}
use circular.Node.Init.{Starter, Started, new_node, init}
use circular.Node.Init.Services.{IsOk, AreUp}
use circular.Node.Init.Ready.{init-IsReady, init-IsWellFormed}
use circular.Node.Life.{Life}
use circular.Node.Life.Kept.{Life-IsWellFormed}
use circular.Plugin.Registry.{Registry, IsRegistry, IsGiven}
use circular.Plugin.Options.{register_options, register_options-HasOptions}
use circular.Plugin.Methods.{register_methods, kind_at-register_methods}

pub record Host (L : Type 0) : Type 0 where
  -- os.OpenFile, and RedirectStderr of paniclog to the file
  pub open_file : String → L → Result ℕ × L
  pub redirect : String → L → Result ℕ × L
  -- StartUp of glightning
  pub start_up : L → Result ℕ × L

-- the part of main before Start
unfoldable pub register : {G : Type 0} → Registry G → G → Result G
register r g = do h ← register_options r g; ok (register_methods r h)

module _ {D T C L : Type 0} (client : Client L) (files : Files T L) (cron : Cron C)
    (starter : Starter D L) (host : Host L) where
  abbrev stderr_name : String → ℕ → String
  stderr_name dir now = path_of dir (str_append "stderr-" (str_append (itoa now) ".log"))

  unfoldable pub redirect_stderr : String → ℕ → L → Result ℕ × L
  redirect_stderr dir now l =
      let opened = host.open_file (stderr_name dir now) l in
      elim opened.0 [
        | err e ↦ (err e, opened.1)
        | ok _ ↦ host.redirect (stderr_name dir now) opened.1
      ]

  unfoldable pub on_init : Options → String → ℕ → L → Result (Started D C L)
  on_init options lightning_dir now l = do
    let dir = path_of lightning_dir circular_dir
    let made = make_dir files dir l
    _ ← or_exit made.0
    let redirected = redirect_stderr dir now made.1
    _ ← or_exit redirected.0
    let started = host.start_up redirected.1
    _ ← or_exit started.0
    init client files cron starter options lightning_dir now (new_node started.1)

  -- the worlds that onInit comes through before Init, where its calls succeed
  module _ (lightning_dir : String) (now : ℕ) (l : L) where
    abbrev home : String
    home = path_of lightning_dir circular_dir

    abbrev made : L
    made = (make_dir files home l).1

    abbrev pub ready : L
    ready = (host.start_up (redirect_stderr home now made).1).1

    -- the file of the graph, as Init finds it, if there is one
    abbrev pub HasSoundFile : (String → String × String) → Type 0
    HasSoundFile ends = IsSound ends files (path_of home "graph.json") (starter.get_info ready).1

    -- the calls that onInit makes before Init succeed
    pub record IsUp : Type 0 where
      pub makes : IsOk (make_dir files home l).0
      pub opens : IsOk (host.open_file (stderr_name home now) made).0
      pub redirects :
          IsOk
            (host.redirect (stderr_name home now) (host.open_file (stderr_name home now) made).1).0
      pub starts : IsOk (host.start_up (redirect_stderr home now made).1).0

    redirect_stderr-IsOk : IsUp → IsOk (redirect_stderr home now made).0
    unfolding redirect_stderr
    redirect_stderr-IsOk up = let (n, e) = up.opens in rw (e, redirect_stderr) up.redirects

  module _ (ends : String → String × String)
      (gossip : (l : L) (channels : List LightningChannel)
        → (client.list_channels l).0 ≡ ok channels
        → All (Follows ends) channels) where
    on_init-IsWellFormed :
        (options : Options) (lightning_dir : String) (now : ℕ) (l : L)
        → HasSoundFile lightning_dir now l ends
        → (s : Started D C L) → on_init options lightning_dir now l ≡ ok s
        → IsWellFormed ends s.node.graph
    unfolding on_init
    on_init-IsWellFormed options lightning_dir now l sound s e =
        let dir = path_of lightning_dir circular_dir in
        let there = make_dir files dir l in
        let (_, _, q) = >>=-eq-ok (or_exit there.0) _ e in
        let redirected = redirect_stderr dir now there.1 in
        let (_, _, q₁) = >>=-eq-ok (or_exit redirected.0) _ q in
        let (_, _, q₂) = >>=-eq-ok (or_exit (host.start_up redirected.1).0) _ q₁ in
        init-IsWellFormed client files cron starter ends gossip options lightning_dir now
          (ready lightning_dir now l) sound s q₂

    -- If registerOptions succeeds, lightningd gives each registered option with a value of its
    -- registered type, and the calls succeed that onInit makes of lightningd, badger, the file
    -- system and cron, each in the world where it is made, then no type assertion of the start on
    -- an option panics: onInit returns the node that it has started, with a well-formed graph, if
    -- gossip reports each channel between its own nodes, and the file of the graph, as the start
    -- finds it, decodes to channels that stand once, under their ids and between their own nodes,
    -- or there is no such file.
    pub on_init-IsReady :
        {G : Type 0} (r : Registry G) (law : IsRegistry r) (g h : G)
        → register r g ≡ ok h
        → (options : Options) → IsGiven r h options
        → (lightning_dir : String) (now : ℕ) (l : L) → IsUp lightning_dir now l
        → ((graph_minutes peer_seconds : ℕ)
            → lookup "circular-graph-refresh" options ≡ some (int graph_minutes)
            → lookup "circular-peer-refresh" options ≡ some (int peer_seconds)
            → AreUp client files cron starter graph_minutes peer_seconds
                (path_of lightning_dir circular_dir)
                (ready lightning_dir now l))
        → HasSoundFile lightning_dir now l ends
        → (s : Started D C L) × (on_init options lightning_dir now l ≡ ok s)
          × IsWellFormed ends s.node.graph
    unfolding on_init register
    on_init-IsReady r law g h registered options given lightning_dir now l up services sound =
        let (h', known, e) = >>=-eq-ok (register_options r g) _ registered in
        let same = ap (λ (x : Result _). elim x [ ok y ↦ y | err z ↦ g ]) e in
        let kinds =
          λ (j : String). ap (r.kind_at j) (sym same) ∙ kind_at-register_methods r law j h' in
        let (graph_minutes, peer_seconds, minutes, save, endpoint, has) =
          register_options-HasOptions r law g h' options known (λ j k q. given j k (kinds j ∙ q)) in
        let (_, made_dir) = up.makes in
        let (_, redirected) = redirect_stderr-IsOk lightning_dir now l up in
        let (_, started) = up.starts in
        let all_up = services graph_minutes peer_seconds has.graph_refresh has.peer_refresh in
        let (id, known_id) = all_up.knows in
        let (s, inited, well_formed, _, _, _, _, _, _) =
          init-IsReady client files cron starter ends gossip options graph_minutes peer_seconds
            minutes save endpoint lightning_dir now (ready lightning_dir now l) id has all_up sound
            known_id in
        (s, rw (made_dir, redirected, started) inited, well_formed)

    -- From the start of the plugin on, where onInit has returned, whatever the cron jobs, the
    -- reports of lightningd, the rounds of UpdateLiquidity, the commands and the calls of
    -- rebalances do, in any order, the graph of the node is well-formed, if gossip reports each
    -- channel between its own nodes, and the file of the graph, as the start finds it, decodes to
    -- channels that stand once, under their ids and between their own nodes, or there is no such
    -- file.
    pub running-IsWellFormed :
        (b : Badger D) (json : Json) (announce : PrettyRoute → L → L) (options : Options)
        (lightning_dir : String) (now : ℕ) (l : L) (s : Started D C L) (x : Bool) (n : Node D L)
        → HasSoundFile lightning_dir now l ends
        → on_init options lightning_dir now l ≡ ok s
        → Life b json client files announce s.node x n
        → IsWellFormed ends n.graph
    running-IsWellFormed b json announce options lightning_dir now l s x n sound e life =
        Life-IsWellFormed b json client files announce ends gossip
          (on_init-IsWellFormed options lightning_dir now l sound s e) life
