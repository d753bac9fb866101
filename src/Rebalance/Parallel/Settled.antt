-- ===== src/Rebalance/Parallel/Settled.antt =====
-- The loop that waits for the results ends: each result takes a candidate, a rebalance or a split.
use circular.Prelude.{
  ℕ, zero, suc, ◌+◌, ◌-◌, ◌*◌, ◌/◌, ◌<◌, ◌≤◌, ◌≡◌, refl, ap, ◌∙◌, true, false, Option, none, some,
  List, [], ◌∷◌, map, length, arith, ltb, ltb→lt, ltb→ge, Bool-cases, inl, inr,
}
use circular.Errors.{Result, ok, err, Result-cases, panic}
use circular.Graph.Channel.{Channel}
use circular.Singleton.{Node}
use circular.Rebalance.Params.{Rebalance}
use circular.Rebalance.Run.{Outcome, succeeded, failed, panicked}
use circular.Rebalance.Parallel.{Parallel}
use circular.Rebalance.Parallel.Report.{Report, new_result}
use circular.Rebalance.Parallel.Methods.{Methods}
use circular.Rebalance.Parallel.Wait.{
  Waiting, move_balances, can_use, waiting, settle, running, wait_loop, rounds, finished,
  fire_and_wait,
}
use circular.Rebalance.Parallel.Accounts.{
  Accounts, rounds_left, IsWithin, fire_candidates-Accounts, mul-div,
}
use circular.Rebalance.Parallel.Rounds.{wait_round-IsWithin}

length-map : {A B : Type 0} (f : A → B) (l : List A) → length (map f l) ≡ length l
length-map f [] = refl
length-map f (x ∷ l) = omega (arith, length-map f l)

times-zero : (k c : ℕ) → 0 < k * c → 0 < k
times-zero zero c h = absurd (omega (arith, h))
times-zero (suc k) c h = omega arith

module _ {W : Type 0} (node : Node W) (target : Channel) (methods : Methods W)
    (receive : List Rebalance → W → (ℕ × Outcome) × W)
    -- a result is that of a rebalance that runs
    (sends : (l : List Rebalance) (w : W) → 0 < length l → (receive l w).0.0 < length l)
    (total : ℕ) where
  abbrev Fine : ℕ → Result (Waiting W) → Type 0
  Fine k (err e) = Unit
  Fine k (ok x) = IsWithin total k x.parallel

  abbrev Settles : ℕ → Option (Result (Waiting W)) → Type 0
  Settles k o = (r : Result (Waiting W)) × ((o ≡ some r) × Fine k r)

  waiting-Settles :
      (k attempts : ℕ) (report : Report) (w : W) (o : Option Parallel)
      → (s : Parallel) × ((o ≡ some s) × IsWithin total k s)
      → Settles k (waiting node target methods receive report attempts w o)
  waiting-Settles k attempts report w o (s, (e, m)) = (
    ok (record { parallel = s; report = report; total_attempts = attempts; world = w }),
    (rw e refl, m),
  )

  settle-Settles :
      (i k : ℕ) (o : Outcome) (x : Waiting W)
      → i < length x.parallel.running
      → IsWithin total (k + 1) x.parallel
      → Settles k (settle node target methods receive i o x)
  unfolding settle
  settle-Settles i k panicked x b m = (err panic, (refl, tt))
  settle-Settles i k (failed n) x b m =
      waiting-Settles k _ _ _ _ (wait_round-IsWithin _ total i k false none x.parallel b m)
  settle-Settles i k (succeeded n s) x b m =
      elim (Result-cases (methods.enqueue_candidate s x.world)) [
        | inl (e, q) ↦ (err e, (rw (q, settle) refl, tt))
        | inr (again, q) ↦ elim (Result-cases (move_balances node s x.world)) [
          | inl (e, q') ↦ (err e, (rw (q, settle) (rw (q', settle) refl), tt))
          | inr (w, q') ↦
              rw (q, settle)
                (rw (q', settle)
                  (waiting-Settles k _ _ _ _
                    (wait_round-IsWithin _ total i k true again x.parallel b m)))
        ]
      ]

  -- nothing is in flight any more
  abbrev IsDone : Result (Waiting W) → Type 0
  IsDone (err e) = Unit
  IsDone (ok x) = Accounts total x.parallel × (x.parallel.in_flight_amount ≡ 0)

  abbrev Ends : Option (Result (Waiting W)) → Type 0
  Ends o = (r : Result (Waiting W)) × ((o ≡ some r) × IsDone r)

  settled-Ends :
      (fuel k : ℕ)
      → ((y : Waiting W)
          → IsWithin total k y.parallel
          → Ends (wait_loop node target methods receive fuel y))
      → (r : Result (Waiting W)) → Fine k r
      → Ends (elim r [ err e ↦ some (err e) | ok y ↦ wait_loop node target methods receive fuel y ])
  settled-Ends fuel k rest (err e) fine = (err e, (refl, tt))
  settled-Ends fuel k rest (ok y) fine = rest y fine

  wait_loop-Ends :
      (fuel k : ℕ) (x : Waiting W)
      → IsWithin total k x.parallel
      → k < fuel
      → Ends (wait_loop node target methods receive fuel x)
  unfolding wait_loop
  wait_loop-Ends zero k x m h = absurd (omega arith)
  wait_loop-Ends (suc fuel) k x (a, m) h = elim (Bool-cases (ltb 0 x.parallel.in_flight_amount)) [
    | inr f ↦ (ok x, (rw (f, wait_loop) refl, (a, omega (arith, ltb→ge _ _ f))))
    | inl t ↦
        let runs : 0 < length x.parallel.running =
          times-zero _ x.parallel.split_amount (omega (arith, a.in_flight, ltb→lt _ _ t)) in
        let same = length-map (methods.fire target x.parallel) x.parallel.running in
        let got = receive (running node target methods receive x) x.world in
        let sent : got.0.0 < length x.parallel.running = omega (
          arith,
          same,
          sends (running node target methods receive x) x.world (omega (arith, same, runs)),
        ) in
        let (r, (q, fine)) =
          settle-Settles got.0.0 (k - 1) got.0.1 (record x { world = got.1 }) sent
            (a, omega (arith, m, runs)) in
        rw (t, wait_loop)
          (rw (q, wait_loop)
            (settled-Ends fuel (k - 1)
              (λ y n. wait_loop-Ends fuel (k - 1) y n (omega (arith, m, runs, h))) r fine))
  ]

  total-rounds : (t : Parallel) → Accounts total t → t.amount / t.split_amount ≡ total
  total-rounds t a = ap (λ x. x / t.split_amount) a.whole ∙ mul-div total t.split_amount a.split

  pub fire_and_wait-returns :
      (s : Parallel) (w : W)
      → Accounts total s
      → (r : Result (Report × W)) × (fire_and_wait node target methods receive s w ≡ some r)
  unfolding fire_and_wait
  fire_and_wait-returns s w a =
      let (t, (q, (a', m))) =
        fire_candidates-Accounts (can_use node target methods receive w) total
          (rounds_left total s a) s (a, omega arith) in
      let enough : rounds_left total t a' ≤ rounds node target methods receive t =
        omega (arith, total-rounds t a') in
      let (r, (q', done)) =
        wait_loop-Ends (rounds node target methods receive t + 1)
          (rounds node target methods receive t)
          (record { parallel = t; report = new_result t.amount; total_attempts = 0; world = w })
          (a', enough) (omega arith) in
      (finished node target methods receive r, rw (q, fire_and_wait) (rw (q', fire_and_wait) refl))
