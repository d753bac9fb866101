-- ===== src/Rebalance/Stopped.antt =====
-- circular-stop of node/control.go and the rebalances: what they do on a node that is stopped.
use circular.Prelude.{
  ◌≡◌, refl, subst, ℕ, suc, ◌+◌, true, false, Option, some, sle, slt, not, if-cases, arith, sub64,
}
use circular.Errors.{err, circular_stopped}
use circular.Graph.Route.{PrettyRoute}
use circular.Singleton as Singleton
use circular.Node.Store.{Badger, Json}
use circular.Node.State.{Node, Client}
use circular.Node.Files.{Files}
use circular.Node.Control.{call_stop}
use circular.Node.Life.{Life}
use circular.Node.Life.Kept.{Life-stopped}
use circular.Node.Instance.{instance_of}
use circular.Rebalance.Params.{Rebalance}
use circular.Rebalance.Attempt.{run_attempt}
use circular.Rebalance.Run.{Outcome, failed, run_loop, run}

module _ {W : Type 0} (node : Singleton.Node W) (r : Rebalance) (w : W)
    (stopped : node.stopped w ≡ true) where
  run_attempt-stopped :
      (max_hops : ℕ) → run_attempt node r max_hops w ≡ some (err circular_stopped, w)
  unfolding run_attempt
  run_attempt-stopped max_hops = rw (stopped, run_attempt) refl

  -- the first round ends the loop
  run_loop-stopped :
      (fuel max_hops : ℕ)
      → run_loop r (run_attempt node r) (suc fuel) 1 max_hops w ≡ some (failed 0, w)
  unfolding run_loop sub64
  run_loop-stopped fuel max_hops =
      let Ends : Option (Outcome × W) → Type 0 = λ o. o ≡ some (failed 0, w) in
      if-cases Ends (not (sle 1 r.attempts)) _ _ (λ _. refl)
        (λ _.
          if-cases Ends (slt r.max_hops max_hops) _ _ (λ _. refl)
            (λ _. rw (run_attempt-stopped max_hops) refl))

  run-stopped : run r (run_attempt node r) w ≡ some (failed 0, w)
  unfolding run
  run-stopped =
      let rounds : suc (r.attempts + r.max_hops) ≡ r.attempts + r.max_hops + 1 = omega arith in
      subst (λ fuel. run_loop r (run_attempt node r) fuel 1 3 w ≡ some (failed 0, w)) rounds
        (run_loop-stopped (r.attempts + r.max_hops) 3)

module _ {D T L : Type 0} (b : Badger D) (json : Json) (client : Client L) (files : Files T L)
    (announce : PrettyRoute → L → L) where
  -- After circular-stop, whatever the node does but circular-resume, a rebalance that runs ends at
  -- once: it reports a failure with no attempt made, and leaves the node and lightningd as they
  -- are.
  pub run-after_stop :
      (r : Rebalance) (n m : Node D L)
      → Life b json client files announce (call_stop n).1 false m
      → run r (run_attempt (instance_of b json client announce) r) m ≡ some (failed 0, m)
  unfolding call_stop
  run-after_stop r n m life =
      run-stopped (instance_of b json client announce) r m
        (Life-stopped b json client files announce refl refl life)
