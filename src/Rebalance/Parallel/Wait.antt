-- ===== src/Rebalance/Parallel/Wait.antt =====
-- WaitForResult of rebalance/parallel, and Call of pull and push. The goroutines that run are the environment:
-- `receive` says which of them sends its result next, what it is, and what the world is by then.
use circular.Prelude.{
  ℕ, zero, suc, ◌+◌, ◌/◌, String, Bool, true, false, Option, none, some, List, [], map, lookup,
  get_or, str_eq, if◌then◌else◌, ltb, add64, length,
}
use circular.Errors.{Result, ok, err, ◌>>=◌, panic, no_required_parameter}
use circular.Graph.Channel.{Channel}
use circular.Node.Peers.{get_outgoing_channel_from_scid, get_incoming_channel_from_scid}
use circular.Singleton.{Node}
use circular.Rebalance.Params.{Rebalance}
use circular.Rebalance.Attempt.{Success}
use circular.Rebalance.Run.{Outcome, succeeded, failed, panicked}
use circular.Rebalance.Parallel.{
  Parallel, set_generic_defaults, is_usable, fire_candidates, wait_round,
}
use circular.Rebalance.Parallel.Report.{Report, new_result, add_success_generic}
use circular.Rebalance.Parallel.Candidates.{get_candidates_list, find_candidates}
use circular.Rebalance.Parallel.Methods.{
  Methods, first_scid, last_scid, Floats, Limits, pull_defaults, push_defaults, validate_parameters,
  pull_methods, push_methods,
}

pub record Waiting (W : Type 0) : Type 0 where
  pub parallel : Parallel
  pub report : Report
  pub total_attempts : ℕ
  pub world : W

module _ {W : Type 0} (node : Node W) where
  -- the balances of the peers after a success, in UpdateAmounts
  unfoldable pub move_balances : Success → W → Result W
  move_balances s w = do
    out_scid ← first_scid s.route
    in_scid ← last_scid s.route
    node.update_channel_balance s.out s.in_ out_scid in_scid s.amount w

  -- AddSuccess of pull and of push
  unfoldable pub add_success : String → Success → W → Report → Report
  unfolding add_success_generic
  add_success id s w report =
      add_success_generic (get_or "unknown" (lookup id (node.get_graph w).aliases)) s.ppm s.amount
        report

  module _ (target : Channel) (methods : Methods W)
      (receive : List Rebalance → W → (ℕ × Outcome) × W) where
    abbrev pub can_use : W → Channel → Bool
    can_use w = is_usable (node.get_peers w) (λ channel. methods.can_use_channel channel w)

    -- how the round ends in which the parallel state has become this
    abbrev pub waiting : Report → ℕ → W → Option Parallel → Option (Result (Waiting W))
    waiting report attempts w none = none
    waiting report attempts w (some s) =
        some (ok (record { parallel = s; report = report; total_attempts = attempts; world = w }))

    -- the body of the loop, once the rebalance `i` of those that run has sent its result
    unfoldable pub settle : ℕ → Outcome → Waiting W → Option (Result (Waiting W))
    unfolding add_success move_balances
    settle i panicked x = some (err panic)
    settle i (failed n) x =
        waiting x.report (add64 x.total_attempts n) x.world
          (wait_round (can_use x.world) i false none x.parallel)
    settle i (succeeded n s) x = elim (methods.enqueue_candidate s x.world) [
      | err e ↦ some (err e)
      | ok again ↦ elim (move_balances s x.world) [
        | err e ↦ some (err e)
        | ok w ↦
            waiting (add_success (methods.success_node s) s x.world x.report)
              (add64 x.total_attempts n) w (wait_round (can_use w) i true again x.parallel)
      ]
    ]

    -- the rebalances that run
    abbrev pub running : Waiting W → List Rebalance
    running x = map (methods.fire target x.parallel) x.parallel.running

    unfoldable pub wait_loop : ℕ → Waiting W → Option (Result (Waiting W))
    unfolding settle
    wait_loop zero x = none
    wait_loop (suc fuel) x =
        if ltb 0 x.parallel.in_flight_amount
        then (let got = receive (running x) x.world in
            elim (settle got.0.0 got.0.1 (record x { world = got.1 })) [
              | none ↦ none
              | some (err e) ↦ some (err e)
              | some (ok y) ↦ wait_loop fuel y
            ])
        else some (ok x)

    -- each round takes a candidate, a rebalance that runs, or a split that is left
    abbrev pub rounds : Parallel → ℕ
    rounds s = length s.candidates + length s.running + s.amount / s.split_amount

    abbrev pub finished : Result (Waiting W) → Result (Report × W)
    finished (err e) = err e
    finished (ok x) = ok (record x.report { attempts = x.total_attempts }, x.world)

    -- FireCandidates and WaitForResult; the time is left out
    unfoldable pub fire_and_wait : Parallel → W → Option (Result (Report × W))
    unfolding wait_loop fire_candidates
    fire_and_wait s w = elim (fire_candidates (can_use w) s) [
      | none ↦ none
      | some t ↦
          elim (wait_loop (rounds t + 1) (record {
            parallel = t;
            report = new_result t.amount;
            total_attempts = 0;
            world = w;
          })) [ none ↦ none | some result ↦ some (finished result) ]
    ]

-- Init
unfoldable pub init : ℕ → ℕ → ℕ → ℕ → ℕ → ℕ → Parallel
unfolding set_generic_defaults
init amount max_ppm split_amount splits attempts max_hops = set_generic_defaults (record {
  candidates = [];
  running = [];
  amount_rebalanced = 0;
  in_flight_amount = 0;
  amount = amount;
  max_ppm = max_ppm;
  splits = splits;
  split_amount = split_amount;
  attempts = attempts;
  max_hops = max_hops;
})

-- what Call does once the target is known
module _ {W : Type 0} (node : Node W) (receive : List Rebalance → W → (ℕ × Outcome) × W) where
  unfoldable pub call_with :
      Channel
      → String
      → Methods W
      → Option (List String)
      → Parallel
      → W
      → Option (Result (Report × W))
  unfolding find_candidates get_candidates_list fire_and_wait
  call_with target exclude methods nodes s w =
      elim (find_candidates (node.get_graph w) (λ channel. methods.is_good_candidate channel w)
        (λ id. methods.get_candidate_direction id w) exclude
        (get_candidates_list (node.get_peers w) nodes)) [
          | err e ↦ some (err e)
          | ok candidates ↦
              fire_and_wait node target methods receive (record s { candidates = candidates }) w
        ]

  module _ {F : Type 0} (floats : Floats F) where
    -- Call of circular-pull, after Init
    unfoldable pub call_pull : Limits F → Parallel → W → Option (Result (Report × W))
    unfolding pull_defaults validate_parameters call_with
    call_pull given s w =
        let l = pull_defaults floats given in
        elim (if str_eq given.scid "" then err no_required_parameter else (do
          _ ← validate_parameters floats l s
          get_incoming_channel_from_scid (node.get_id w) (node.get_peers w) (node.get_graph w)
              l.scid)) [
                | err e ↦ some (err e)
                | ok target ↦
                    call_with target target.source (pull_methods floats node l s) l.nodes s w
              ]

    unfoldable pub call_push : Limits F → Parallel → W → Option (Result (Report × W))
    unfolding push_defaults validate_parameters call_with
    call_push given s w =
        let l = push_defaults floats given in
        elim (if str_eq given.scid "" then err no_required_parameter else (do
          _ ← validate_parameters floats l s
          get_outgoing_channel_from_scid (node.get_id w) (node.get_peers w) (node.get_graph w)
              l.scid)) [
                | err e ↦ some (err e)
                | ok target ↦
                    call_with target target.destination (push_methods floats node l s) l.nodes s w
              ]
