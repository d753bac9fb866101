-- ===== src/Rebalance/Total.antt =====
-- Run with the attempts of the code: it returns, whatever the node and the network answer.
use Prim.Native.String.{◌++◌ as str_append}
use circular.Prelude.{
  ℕ, ◌+◌, ◌<◌, ◌≤◌, ◌≡◌, ap, ◌∙◌, String, some, inl, inr, arith, i64_half, Bool-cases,
}
use circular.Errors.{Result, ok, err, Result-cases, circular_stopped, ◌>>=◌}
use circular.Graph.Pathfinder.Expand.{Assumptions}
use circular.Singleton.{Node}
use circular.Rebalance.Params.{Rebalance, validate_liquidity_parameters}
use circular.Rebalance.Attempt.{Success, try_route, run_attempt, pay_route, success_of}
use circular.Graph.Route.{Route, PrettyRoute, new_pretty_route}
use circular.Graph.Network.{get_alias}
use circular.Rebalance.Circle.{get_route-IsClosed}
use circular.Rebalance.Run.{Outcome, run}
use circular.Rebalance.Outcomes.{IsOutcome, run-IsOutcome}

-- The node's calls keep `P`, a property of its states, and its hashes have the property `H`.
pub record IsKept {W : Type 0} (node : Node W) (H : String → Type 0) (P : W → Type 0) : Type 0 where
  pub hashes : (w : W) (hash : String) → (node.generate_preimage_hash_pair w).0 ≡ ok hash → H hash
  pub generate : (w : W) → P w → P (node.generate_preimage_hash_pair w).1
  pub save :
      (hash : String) (pretty : PrettyRoute) (w : W)
      → H hash
      → P w
      → P (node.save_to_db (str_append "r_" hash) pretty w).1
  pub announce : (pretty : PrettyRoute) (w : W) → P w → P (node.send_rebalance_attempt pretty w)
  pub pay :
      (route : Route) (hash : String) (w : W) → H hash → P w → P (node.send_pay route hash w).1

module _ {W : Type 0} (node : Node W) (r : Rebalance) (ends : String → String × String)
    {H : String → Type 0} {P : W → Type 0} (kept : IsKept node H P)
    (a : (w : W) → P w → Assumptions ends (node.get_graph w) r.amount) where
  pay_route-kept :
      (path : Route) (hash : String) (w : W) → H hash → P w → P (pay_route node r path hash w).1
  unfolding pay_route
  pay_route-kept path hash w h k =
      elim (Result-cases (new_pretty_route (get_alias (node.get_graph w)) path hash)) [
        | inl (e, q) ↦ rw (q, pay_route) k
        | inr (pretty, q) ↦
            let told =
              node.send_rebalance_attempt pretty
                (node.save_to_db (str_append "r_" hash) pretty w).1 in
            let k' : P (node.send_pay path hash told).1 =
              kept.pay path hash told h (kept.announce pretty _ (kept.save hash pretty w h k)) in
            elim (Result-cases (node.send_pay path hash told).0) [
              | inl (e, q') ↦ rw (q, pay_route) (rw (q', pay_route) k')
              | inr (preimage, q') ↦ rw (q, pay_route) (rw (q', pay_route) k')
            ]
      ]

  module _ (hops : ℕ) (least : 3 ≤ hops) (few : hops < i64_half) where
    try_route-total :
        (w : W) → P w → (p : Result _ × W) × ((try_route node r hops w ≡ some p) × P p.1)
    unfolding try_route
    try_route-total w k =
        let pair = node.generate_preimage_hash_pair w in
        let k' : P pair.1 = kept.generate w k in
        elim (Result-cases pair.0) [
          | inl (e, q) ↦ ((err e, pair.1), (rw (q, try_route), k'))
          | inr (hash, q) ↦
              let (result, s, closed) =
                get_route-IsClosed ends r (node.get_id pair.1) (node.get_graph pair.1) hops
                  (a pair.1 k') (omega arith) few in
              elim (Result-cases result) [
                | inl (e, t) ↦
                    ((err e, pair.1), (rw (q, try_route) (rw (s ∙ ap some t, try_route)), k'))
                | inr (route, t) ↦ (
                  pay_route node r route hash pair.1,
                  (
                    rw (q, try_route) (rw (s ∙ ap some t, try_route)),
                    pay_route-kept route hash pair.1 (kept.hashes w hash q) k',
                  ),
                )
              ]
        ]

    run_attempt-total :
        (w : W) → P w → (p : Result Success × W) × ((run_attempt node r hops w ≡ some p) × P p.1)
    unfolding run_attempt
    run_attempt-total w k = elim (Bool-cases (node.stopped w)) [
      | inl t ↦ ((err circular_stopped, w), (rw (t, run_attempt), k))
      | inr t ↦ elim (Result-cases (validate_liquidity_parameters r (node.get_peers w))) [
        | inl (e, q) ↦ ((err e, w), (rw (t, run_attempt) (rw (q, run_attempt)), k))
        | inr (n, q) ↦
            let (p, (s, k')) = try_route-total w k in
            (
              (p.0 >>= λ pretty. ok (success_of node r pretty), p.1),
              (rw (t, run_attempt) (rw (q, run_attempt) (rw (s, run_attempt))), k'),
            )
      ]
    ]

  -- Run ends, whatever the node answers, if the calls of the node keep a property that holds at
  -- first, if under that property the graph is well-formed, the fee fields fit 32 bits and the
  -- amount leaves room below 2 ^ 41 msat, and if the attempts and the hops that are allowed are
  -- more than 4 below 2 ^ 63. A success is that of an attempt of at least three hops and of at most
  -- as many as are allowed, after at least one attempt and at most as many as are allowed; a
  -- failure has made no more of them; a panic is that of an attempt; and the property holds at the
  -- end.
  pub rebalance-ends :
      (w : W)
      → P w
      → r.attempts + 1 < i64_half
      → r.max_hops + 4 < i64_half
      → (p : Outcome × W) × ((run r (run_attempt node r) w ≡ some p)
          × (IsOutcome r (run_attempt node r) p.0 × P p.1))
  rebalance-ends w k few short =
      run-IsOutcome r (run_attempt node r) P
        (λ hops w' b c k'. run_attempt-total hops b (omega arith) w' k') few short w k
