-- ===== src/Rebalance/Outcomes.antt =====
-- What Run returns, and that it returns.
use circular.Prelude.{
  ℕ, zero, suc, ◌+◌, ◌-◌, ◌<◌, ◌≤◌, ◌≡◌, refl, sym, subst, ap, ◌∙◌, false, Option, none, some, inl,
  inr, ◌⊎◌, not, if-cases, arith, sle, slt, sle_lem, slt_lem, sub64, sub64_lem, i64_half,
}
use circular.Errors.{
  Error, Result, ok, err, panic, no_route, route_too_expensive, temporary_failure,
}
use circular.Rebalance.Params.{Rebalance}
use circular.Rebalance.Attempt.{Success}
use circular.Rebalance.Run.{
  Outcome, succeeded, failed, panicked, more_hops, stop, next_attempt, crash, after_error, run_loop,
  run,
}

Next-cases :
    (e : Error)
    → (after_error e ≡ more_hops)
      ⊎ (after_error e ≡ stop)
      ⊎ (after_error e ≡ next_attempt)
      ⊎ ((after_error e ≡ crash) × (e ≡ panic))
Next-cases no_route = inl refl
Next-cases (route_too_expensive _ _) = inl refl
Next-cases temporary_failure = inr (inr (inl refl))
Next-cases panic = inr (inr (inr (refl, refl)))
Next-cases _ = inr (inl refl)

module _ {W : Type 0} (r : Rebalance) (attempt : ℕ → W → Option (Result Success × W)) where
  -- An attempt of a number of hops within the limit has returned this.
  abbrev pub HasReturned : Result Success → Type 0
  HasReturned result =
      (hops : ℕ) × (w w' : W) × (3 ≤ hops)
      × (hops ≤ r.max_hops)
      × (attempt hops w ≡ some (result, w'))

  -- A success is that of an attempt, one of at most as many as are allowed; a failure has made no more.
  abbrev pub IsOutcome : Outcome → Type 0
  IsOutcome (succeeded n success) = (1 ≤ n) × (n ≤ r.attempts) × HasReturned (ok success)
  IsOutcome (failed n) = n ≤ r.attempts
  IsOutcome panicked = HasReturned (err panic)

  -- `P` is a property of the state that an attempt keeps
  module _ (P : W → Type 0)
      (total : (hops : ℕ) (w : W)
        → 3 ≤ hops
        → hops ≤ r.max_hops
        → P w
        → (p : Result Success × W) × ((attempt hops w ≡ some p) × P p.1))
      (few : r.attempts + 1 < i64_half) (short : r.max_hops + 4 < i64_half) where
    abbrev Returns : Option (Outcome × W) → Type 0
    Returns o = (p : Outcome × W) × ((o ≡ some p) × (IsOutcome p.0 × P p.1))

    count_lem : (i : ℕ) → 1 ≤ i → i ≤ r.attempts + 1 → sub64 i 1 ≡ i - 1
    count_lem i b c = sub64_lem i 1 (omega arith) (omega arith)

    gives_up :
        (i : ℕ) (w : W) → 1 ≤ i → i ≤ r.attempts + 1 → P w → Returns (some (failed (sub64 i 1), w))
    gives_up i w b c k = ((failed (sub64 i 1), w), (refl, (omega (arith, count_lem i b c), k)))

    -- where the loop stands, with fuel for the attempts and the hops that are left
    record Ready (fuel i hops : ℕ) : Type 0 where
      first : 1 ≤ i
      last : i ≤ r.attempts + 1
      least : 3 ≤ hops
      most : hops ≤ r.max_hops + 3
      fuelled : (r.attempts + 1 - i) + (r.max_hops + 1 - hops) < fuel

    module _ (fuel i hops : ℕ) (w : W) (at : Ready (suc fuel) i hops) (kept : P w)
        (rest : (i' hops' : ℕ) (w' : W)
          → Ready fuel i' hops'
          → P w'
          → Returns (run_loop r attempt fuel i' hops' w')) where
      within : not (sle i r.attempts) ≡ false → i ≤ r.attempts
      within t = ground (arith, t, sle_lem i r.attempts (omega (arith, at.last)) (omega arith))

      near : slt r.max_hops hops ≡ false → hops ≤ r.max_hops
      near t = ground (arith, t, slt_lem r.max_hops hops (omega arith) (omega (arith, at.most)))

      module _ (m : i ≤ r.attempts) (n : hops ≤ r.max_hops) where
        longer : Ready fuel i (suc hops)
        longer = record {
          first = at.first;
          last = at.last;
          least = omega (arith, at.least);
          most = omega arith;
          fuelled = omega (arith, at.fuelled);
        }

        again : Ready fuel (suc i) hops
        again = record {
          first = omega arith;
          last = omega arith;
          least = at.least;
          most = at.most;
          fuelled = omega (arith, at.fuelled);
        }

        after :
            (e : Error) (w' : W)
            → attempt hops w ≡ some (err e, w')
            → P w'
            → Returns (elim (after_error e) [
              | more_hops ↦ run_loop r attempt fuel i (suc hops) w'
              | stop ↦ some (failed (sub64 i 1), w')
              | next_attempt ↦ run_loop r attempt fuel (suc i) hops w'
              | crash ↦ some (panicked, w')
            ])
        after e w' q k = elim (Next-cases e) [
          | inl t ↦ rw t (rest i (suc hops) w' longer k)
          | inr (inl t) ↦ rw t (gives_up i w' at.first at.last k)
          | inr (inr (inl t)) ↦ rw t (rest (suc i) hops w' again k)
          | inr (inr (inr (t, z))) ↦ rw t (
            (panicked, w'),
            (refl, ((hops, w, w', at.least, n, q ∙ ap (λ x. some (err x, w')) z), k)),
          )
        ]

        abbrev goes_on : Option (Result Success × W) → Option (Outcome × W)
        goes_on none = none
        goes_on (some (ok success, w')) = some (succeeded i success, w')
        goes_on (some (err e, w')) = elim (after_error e) [
          | more_hops ↦ run_loop r attempt fuel i (suc hops) w'
          | stop ↦ some (failed (sub64 i 1), w')
          | next_attempt ↦ run_loop r attempt fuel (suc i) hops w'
          | crash ↦ some (panicked, w')
        ]

        attempted :
            (p : Result Success × W) → attempt hops w ≡ some p → P p.1 → Returns (goes_on (some p))
        attempted (ok success, w') q k =
            ((succeeded i success, w'), (refl, ((at.first, m, (hops, w, w', at.least, n, q)), k)))
        attempted (err e, w') q k = after e w' q k

        made : Returns (goes_on (attempt hops w))
        made =
            let (p, (q, k)) = total hops w at.least n kept in
            subst (λ o. Returns (goes_on o)) (sym q) (attempted p q k)

      round : Returns (run_loop r attempt (suc fuel) i hops w)
      unfolding run_loop
      round =
          if-cases Returns (not (sle i r.attempts)) (some (failed (sub64 i 1), w)) _
            (λ over. gives_up i w at.first at.last kept)
            (λ more.
              if-cases Returns (slt r.max_hops hops) (some (failed (sub64 i 1), w)) _
                (λ over. gives_up i w at.first at.last kept)
                (λ allowed. made (within more) (near allowed)))

    run_loop-IsOutcome :
        (fuel i hops : ℕ) (w : W)
        → Ready fuel i hops
        → P w
        → Returns (run_loop r attempt fuel i hops w)
    run_loop-IsOutcome zero i hops w at kept = absurd (omega (arith, at.fuelled))
    run_loop-IsOutcome (suc fuel) i hops w at kept =
        round fuel i hops w at kept
          (λ i' hops' w' at' kept'. run_loop-IsOutcome fuel i' hops' w' at' kept')

    -- If each attempt of a number of hops within the limit returns, so does Run, its outcome is one of those,
    -- and what an attempt keeps still holds.
    pub run-IsOutcome :
        (w : W) → P w → (p : Outcome × W) × ((run r attempt w ≡ some p) × (IsOutcome p.0 × P p.1))
    unfolding run
    run-IsOutcome w kept =
        run_loop-IsOutcome (r.attempts + r.max_hops + 1) 1 3 w
          (record {
            first = omega arith;
            last = omega arith;
            least = omega arith;
            most = omega arith;
            fuelled = omega arith;
          })
          kept
