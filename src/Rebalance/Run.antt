-- ===== src/Rebalance/Run.antt =====
-- Run of rebalance/rebalance.go: attempts, until one succeeds, with longer routes when no cheap one is found.
-- `none` says that the fuel ran out; each round spends an attempt or a hop, so that there is a round for
-- each of both, and one more.
use circular.Prelude.{ℕ, zero, suc, ◌+◌, Option, none, some, not, if◌then◌else◌, sle, slt, sub64}
use circular.Errors.{
  Error, Result, ok, err, no_route, route_too_expensive, temporary_failure, panic,
}
use circular.Rebalance.Params.{Rebalance}
use circular.Rebalance.Attempt.{Success}

-- the outcome with the number of attempts, which is what Run returns but for the texts
pub data Outcome : Type 0 where
  succeeded : ℕ → Success → Outcome
  failed : ℕ → Outcome
  -- the program has panicked
  panicked : Outcome

-- how the loop goes on after an error
pub data Next : Type 0 where
  more_hops stop next_attempt crash : Next

abbrev pub after_error : Error → Next
after_error no_route = more_hops
after_error (route_too_expensive _ _) = more_hops
after_error temporary_failure = next_attempt
after_error panic = crash
after_error _ = stop

module _ {W : Type 0} (r : Rebalance) (run_attempt : ℕ → W → Option (Result Success × W)) where
  unfoldable pub run_loop : ℕ → ℕ → ℕ → W → Option (Outcome × W)
  run_loop zero i max_hops w = none
  run_loop (suc fuel) i max_hops w =
      if not (sle i r.attempts)
      then some (failed (sub64 i 1), w)
      else if slt r.max_hops max_hops
      then some (failed (sub64 i 1), w)
      else elim (run_attempt max_hops w) [
        | none ↦ none
        | some (ok success, w') ↦ some (succeeded i success, w')
        | some (err e, w') ↦ elim (after_error e) [
          | more_hops ↦ run_loop fuel i (suc max_hops) w'
          | stop ↦ some (failed (sub64 i 1), w')
          | next_attempt ↦ run_loop fuel (suc i) max_hops w'
          | crash ↦ some (panicked, w')
        ]
      ]

  unfoldable pub run : W → Option (Outcome × W)
  unfolding run_loop
  run w = run_loop (r.attempts + r.max_hops + 1) 1 3 w
