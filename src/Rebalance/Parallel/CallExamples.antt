-- ===== src/Rebalance/Parallel/CallExamples.antt =====
-- The theorems about the report, the candidates and the calls, at the fixture: liquidity is pulled out of the
-- channel with `b` into that with `c`.
use circular.Prelude.{
  ℕ, ◌+◌, ◌≡◌, ◌≢◌, refl, true, false, none, some, List, [], ◌∷◌, lookup, arith, All, mul64,
}
use circular.Errors.{Result, ok}
use circular.Lightning.{Peer}
use circular.Util.{get_direction}
use circular.Graph.Network.{Graph, get_channel}
use circular.Graph.Examples.{network}
use circular.Node.Peers.{get_graph_channel_from_peer_channel}
use circular.Singleton.{Node}
use circular.Rebalance.Params.{Rebalance}
use circular.Rebalance.Run.{Outcome, failed}
use circular.Rebalance.Fixture.{out_channel, in_channel, peer_channel, node}
use circular.Rebalance.Parallel.{Parallel}
use circular.Rebalance.Parallel.Report.{
  Report, add_success_generic, add_success_generic-sum, sum_successes,
}
use circular.Rebalance.Parallel.Candidates.{
  find_candidates, find_candidates-IsCandidate, IsCandidate,
}
use circular.Rebalance.Parallel.Methods.{Floats, Limits}
use circular.Rebalance.Parallel.Wait.{init, call_pull, call_push}
use circular.Rebalance.Parallel.Ends.{calls-Returns}

abbrev wide : Graph
wide = record network {
  channels = ("3x3x3/1", out_channel) ∷ ("4x4x4/0", in_channel) ∷ network.channels;
}

abbrev wide_node : Node ℕ
wide_node = record node { get_graph = λ w. wide }

abbrev both : List Peer
both =
    record { id = "b"; connected = true; channels = peer_channel "3x3x3" ∷ [] }
    ∷ record { id = "c"; connected = true; channels = peer_channel "4x4x4" ∷ [] }
    ∷ []

find_candidates-both :
    find_candidates wide (λ channel. ok true) (λ id. get_direction "n" id) "c" both
    ≡ ok (out_channel ∷ [])
unfolding find_candidates get_graph_channel_from_peer_channel get_channel get_direction lookup
find_candidates-both = refl

find_candidates-IsCandidate_example :
    ((out_channel ∷ []) ≢ [])
    × All
        (IsCandidate wide (λ channel. ok true) (λ id. get_direction "n" id) "c" both)
        (out_channel ∷ [])
find_candidates-IsCandidate_example =
    find_candidates-IsCandidate wide (λ channel. ok true) (λ id. get_direction "n" id) "c" both
      (out_channel ∷ []) find_candidates-both

abbrev moved : Report
moved = record {
  rebalance_target = 400000;
  rebalanced_amount = 100000;
  attempts = 1;
  successes = ("bob", (7, 100000) ∷ []) ∷ [];
}

add_success_generic-sum_example :
    (sum_successes (add_success_generic "bob" 7 100000 moved).successes
      ≡ (add_success_generic "bob" 7 100000 moved).rebalanced_amount)
    × ((add_success_generic "bob" 7 100000 moved).rebalanced_amount ≡ 200000)
add_success_generic-sum_example = add_success_generic-sum "bob" 7 100000 moved refl (omega arith)

-- percents are whole numbers here
abbrev percents : Floats ℕ
percents = record {
  scale = λ x p. 0;
  is_at_most_0 = λ p. false;
  is_below_0 = λ p. false;
  is_above_1 = λ p. false;
  deplete_percent = 20;
  fill_percent = 80;
}

abbrev limits : Limits ℕ
limits = record {
  scid = "4x4x4";
  nodes = none;
  out_ppm = 5000;
  up_to_percent = 20;
  up_to_amount = 0;
}

abbrev asked : Parallel
asked = init 400000 10 100000 4 1 8

-- the first of those that run fails
abbrev fails : List Rebalance → ℕ → (ℕ × Outcome) × ℕ
fails l w = ((0, failed 1), w + 1)

calls-Returns_example :
    ((r : Result (Report × ℕ)) × (call_pull wide_node fails percents limits asked 0 ≡ some r))
    × ((r : Result (Report × ℕ)) × (call_push wide_node fails percents limits asked 0 ≡ some r))
unfolding init mul64
calls-Returns_example =
    calls-Returns wide_node fails (λ l w h. h) percents asked refl refl refl (omega arith)
      (omega arith) limits 0
