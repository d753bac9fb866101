-- ===== src/Rebalance/Examples.antt =====
-- The theorems about rebalances at the fixture.
use circular.Prelude.{ℕ, ◌≡◌, refl, String, some, [], ◌∷◌, lookup, arith, Map}
use circular.Errors.{Result, err, panic}
use circular.Graph.Route.{Route}
use circular.Graph.Examples.{ends, network, network-Assumptions, channel_bc, gossip_bc}
use circular.Node.State as Full
use circular.Node.Instance.{instance_of}
use circular.Node.Ledger.Fixture.{memory, json, client, fresh_node}
use circular.Node.Control.{call_stop}
use circular.Node.Life.{here, next, stopped}
use circular.Rebalance.Stopped.{run-after_stop}
use circular.Rebalance.Params.{Rebalance}
use circular.Rebalance.Attempt.{get_route, run_attempt}
use circular.Rebalance.Circle.{IsClosed, get_route-IsClosed}
use circular.Rebalance.Run.{Outcome, failed, run}
use circular.Rebalance.Outcomes.{IsOutcome}
use circular.Rebalance.Total.{rebalance-ends}
use circular.Rebalance.SamePeer.{get_route-same_peer}
use circular.Rebalance.Fixture.{rebalance, peers, node, node-IsKept, files}

get_route-IsClosed_example :
    (result : Result Route) × (get_route rebalance "n" network 3 ≡ some result)
    × IsClosed rebalance "n" network 3 result
get_route-IsClosed_example =
    get_route-IsClosed ends rebalance "n" network 3 network-Assumptions (omega arith) (omega arith)

rebalance-ends_example :
    (p : Outcome × ℕ) × ((run rebalance (run_attempt node rebalance) 0 ≡ some p)
      × (IsOutcome rebalance (run_attempt node rebalance) p.0 × Unit {0}))
rebalance-ends_example =
    rebalance-ends node rebalance ends node-IsKept (λ w k. network-Assumptions) 0 tt (omega arith)
      (omega arith)

-- the node of the fixture with the small network and the peers
abbrev start : Full.Node (Map String) ℕ
start = record fresh_node { id = "n"; peers = peers; graph = network }

abbrev same_peer : Rebalance
same_peer = record rebalance {
  in_channel = record channel_bc { gossip = record gossip_bc { source = "b"; destination = "n" } };
}

found_b : lookup "b" network.inbound ≡ some (("a", "1x1x1" ∷ []) ∷ [])
unfolding lookup
found_b = refl

get_route-same_peer_example : get_route same_peer "n" network 3 ≡ some (err panic)
get_route-same_peer_example =
    get_route-same_peer same_peer "n" network 3 (("a", "1x1x1" ∷ []) ∷ []) refl found_b

-- circular-stop twice
run-after_stop_example :
    run rebalance
      (run_attempt (instance_of memory json client (λ pretty w. w)) rebalance)
      (call_stop (call_stop start).1).1
    ≡ some (failed 0, (call_stop (call_stop start).1).1)
run-after_stop_example =
    run-after_stop memory json client files (λ pretty w. w) rebalance start
      (call_stop (call_stop start).1).1 (next here (stopped (call_stop start).1))
