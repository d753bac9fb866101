-- ===== src/Node/CronExamples.antt =====
-- The theorems about the updates, at the fixture with the small network.
use circular.Prelude.{◌≡◌, refl, lookup, some, itoa, refl, ℕ, String, arith, Map}
use circular.Util.{min}
use circular.Lightning.{SendPayFailure}
use circular.Graph.Examples.{channel_ab, network}
use circular.Node.State.{Node}
use circular.Node.Payments.{report_failure, update_liquidity}
use circular.Node.Learned.{lookup-report_failure}
use circular.Node.Ledger.Fixture.{memory, json, client, fresh_node}

abbrev node : Node (Map String) ℕ
node = record fresh_node { graph = network }

abbrev failure : SendPayFailure
failure = record {
  payment_hash = "";
  milli_satoshi = 5000000;
  erring_channel = "1x1x1";
  erring_direction = 0;
}

lookup-report_failure_example :
    lookup "1x1x1/0"
      (update_liquidity 1700000000 (report_failure memory json client failure node)).graph.channels
    ≡ some (record channel_ab { liquidity = 4000000; timestamp = 1700000000 })
unfolding min lookup itoa
lookup-report_failure_example =
    lookup-report_failure memory json client failure node 1700000000 "1x1x1/0" refl (omega arith)
      (omega arith)
