-- ===== src/Rebalance/Parallel/Examples.antt =====
-- The theorems about the accounts, at an amount of four splits with two candidates.
use circular.Prelude.{◌+◌, ◌*◌, ◌≤◌, ◌≡◌, refl, true, some, [], ◌∷◌, arith, add64, slt}
use circular.Errors.{ok}
use circular.Graph.Examples.{channel_ab, channel_bc}
use circular.Rebalance.Parallel.{
  Parallel, validate_generic_parameters, fire_candidates, fire_loop, fire, may_fire,
  get_next_candidate,
}
use circular.Rebalance.Parallel.Accounts.{Accounts, validated-Accounts}
use circular.Rebalance.Parallel.Rounds.{fired, Reached-bounds}

abbrev begun : Parallel
begun = record {
  candidates = channel_ab ∷ channel_bc ∷ [];
  running = [];
  amount_rebalanced = 0;
  in_flight_amount = 0;
  amount = 400000000;
  max_ppm = 10;
  splits = 4;
  split_amount = 100000000;
  attempts = 1;
  max_hops = 8;
}

abbrev both_running : Parallel
both_running = record begun {
  candidates = [];
  running = channel_bc ∷ channel_ab ∷ [];
  in_flight_amount = 200000000;
}

valid : validate_generic_parameters begun ≡ ok 0
unfolding validate_generic_parameters
valid = refl

begun-Accounts : Accounts 4 begun
begun-Accounts = validated-Accounts begun 0 valid refl refl refl (omega arith) (omega arith)

fire_candidates-begun : fire_candidates (λ c. true) begun ≡ some both_running
unfolding fire_candidates fire_loop fire may_fire get_next_candidate add64 slt
fire_candidates-begun = refl

validated-Accounts_example : Accounts 4 begun
validated-Accounts_example =
    validated-Accounts begun 0 valid refl refl refl (omega arith) (omega arith)

Reached-bounds_example :
    (both_running.amount_rebalanced + both_running.in_flight_amount ≤ 400000000)
    × (both_running.in_flight_amount ≡ 2 * 100000000)
    × (2 ≤ both_running.splits)
Reached-bounds_example =
    Reached-bounds 4 begun both_running begun-Accounts
      (fired (λ c. true) both_running fire_candidates-begun)

abbrev both-Accounts : Accounts 4 both_running
both-Accounts = record {
  split = omega arith;
  whole = omega arith;
  done = 0;
  rebalanced = omega arith;
  in_flight = omega arith;
  within = omega arith;
  few = omega arith;
  int = omega arith;
  word = omega arith;
}
