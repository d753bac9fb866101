-- ===== src/Plugin/Examples.antt =====
-- The theorems about the start of the plugin, at test data.
use circular.Prelude.{
  mul64, ◌≡◌, refl, String, true, false, none, some, lookup, insert, Map, List, [],
}
use circular.Errors.{ok}
use circular.Graph.Network.WellFormed.{IsWellFormed}
use circular.Graph.Examples.{ends}
use circular.Node.Files.Fixture.{Disk, disk}
use circular.Node.Control.{call_stop}
use circular.Node.Life.{here, next, stopped}
use circular.Node.Options.{Options, Job}
use circular.Node.Init.{Started, init, new_node}
use circular.Node.Init.Services.{HasOptions}
use circular.Node.Init.Ready.{init-IsReady}
use circular.Node.Ledger.Fixture.{memory, json}
use circular.Plugin.Registry.{stop, RpcMethod}
use circular.Plugin.Options.{register_options}
use circular.Plugin.Methods.{name, register_methods, method_at-register_methods}
use circular.Plugin.Start.{register, on_init, on_init-IsReady, running-IsWellFormed}
use circular.Plugin.Fixture.{
  registry, registry-IsRegistry, nothing_known, known, values_of, values-IsGiven, registered,
  gossiping, gossiping-Follows, begun, ready_files, started-IsSound, cron, starter, host,
  services-AreUp, host-IsUp,
}

method_at-register_methods_example :
    (m : RpcMethod) × (registry.method_at (name stop) (register_methods registry nothing_known)
      ≡ some m)
    × (m.command ≡ stop)
unfolding lookup
method_at-register_methods_example =
    method_at-register_methods registry registry-IsRegistry nothing_known stop (λ d. refl)

abbrev options : Options
options = values_of known.0

abbrev Running : Type 0
Running = Started (Map String) (List (String × Job)) Disk

on_init-IsReady_example :
    (s : Running) × (on_init gossiping disk cron starter host options "/root/.lightning" 1700000000
        begun
      ≡ ok s)
    × IsWellFormed ends s.node.graph
on_init-IsReady_example =
    on_init-IsReady gossiping disk cron starter host ends gossiping-Follows registry
      registry-IsRegistry nothing_known known registered options (values-IsGiven known)
      "/root/.lightning" 1700000000 begun host-IsUp
      (λ graph_minutes peer_seconds e q. services-AreUp graph_minutes peer_seconds) started-IsSound

abbrev running :
    (s : Running) × (on_init gossiping disk cron starter host options "/root/.lightning" 1700000000
        begun
      ≡ ok s)
    × IsWellFormed ends s.node.graph
running =
    on_init-IsReady gossiping disk cron starter host ends gossiping-Follows registry
      registry-IsRegistry nothing_known known registered options (values-IsGiven known)
      "/root/.lightning" 1700000000 begun host-IsUp
      (λ graph_minutes peer_seconds e q. services-AreUp graph_minutes peer_seconds) started-IsSound

running-IsWellFormed_example : IsWellFormed ends (call_stop running.0.node).1.graph
running-IsWellFormed_example =
    running-IsWellFormed gossiping disk cron starter host ends gossiping-Follows memory json
      (λ route l. l) options "/root/.lightning" 1700000000 begun running.0 false
      (call_stop running.0.node).1 started-IsSound running.1 (next here (stopped running.0.node))

options-HasOptions : HasOptions options 7 7 7 true ""
unfolding register register_options register_methods lookup insert
options-HasOptions = record {
  graph_refresh = refl;
  peer_refresh = refl;
  liquidity_refresh = refl;
  save_stats = refl;
  websocket = refl;
}

init-IsReady_example :
    (s : Running) × (init gossiping disk cron starter options "/root/.lightning" 1700000000
        (new_node ready_files)
      ≡ ok s)
    × IsWellFormed ends s.node.graph
    × (s.node.id ≡ "n")
    × (s.node.stopped ≡ false)
    × (s.node.save_stats ≡ true)
    × (s.node.liquidity_refresh ≡ 420000000000)
    × (s.node.updates ≡ [])
    × (s.endpoint ≡ none)
unfolding mul64
init-IsReady_example =
    init-IsReady gossiping disk cron starter ends gossiping-Follows options 7 7 7 true ""
      "/root/.lightning" 1700000000 ready_files "n" options-HasOptions (services-AreUp 7 7)
      started-IsSound refl
