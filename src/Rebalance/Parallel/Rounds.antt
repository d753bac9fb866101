-- ===== src/Rebalance/Parallel/Rounds.antt =====
-- The rounds of WaitForResult: each keeps the accounts and comes nearer to the end.
use circular.Prelude.{
  ℕ, zero, suc, ◌+◌, ◌-◌, ◌*◌, ◌<◌, ◌≤◌, ◌≡◌, sym, subst, ap, ◌∙◌, Bool, true, false, Option, none,
  some, List, [], ◌∷◌, length, arith, add64_lem, sub64, sub64_lem,
}
use circular.Graph.Channel.{Channel}
use circular.Rebalance.Parallel.{Parallel, fire_candidates, update_amounts, wait_round}
use circular.Prelude.{remove_at}
use circular.Rebalance.Parallel.Accounts.{
  Accounts, mul-le, distribute, rounds_left, IsWithin, IsWithin-le, with_candidates,
  fire_candidates-Accounts,
}

remove_at-length : (i : ℕ) (l : List Channel) → i < length l → length (remove_at i l) + 1 ≡ length l
remove_at-length i [] h = absurd (omega arith)
remove_at-length zero (c ∷ l) h = omega arith
remove_at-length (suc i) (c ∷ l) h = omega (arith, remove_at-length i l)

module _ (total i : ℕ) (s : Parallel) (b : i < length s.running) (k : ℕ)
    (w : IsWithin total k s) where
  abbrev a : Accounts total s
  a = w.0

  abbrev others : ℕ
  others = length (remove_at i s.running)

  one_less : others + 1 ≡ length s.running
  one_less = remove_at-length i s.running b

  next_split : (x : ℕ) → (x + 1) * s.split_amount ≡ x * s.split_amount + s.split_amount
  next_split x = grind arith

  flight : s.in_flight_amount ≡ others * s.split_amount + s.split_amount
  flight = a.in_flight ∙ ap (λ x. x * s.split_amount) (sym one_less) ∙ next_split others

  together : s.amount_rebalanced + s.in_flight_amount ≤ s.amount
  together = omega (
    arith,
    a.rebalanced,
    a.in_flight,
    a.whole,
    distribute a.done (length s.running) s.split_amount,
    mul-le (a.done + length s.running) total s.split_amount a.within,
  )

  gone : sub64 s.in_flight_amount s.split_amount ≡ others * s.split_amount
  gone =
      sub64_lem _ _ (omega (arith, flight)) (omega (arith, together, a.word))
      ∙ omega (arith, flight)

  -- One of the rebalances that run ends, and the amounts follow; a success takes one of the splits too.
  update_amounts-success :
      IsWithin total (k - 2) (update_amounts true (record s { running = remove_at i s.running }))
  unfolding update_amounts
  update_amounts-success = (
    record {
      split = a.split;
      whole = a.whole;
      done = a.done + 1;
      rebalanced =
          add64_lem _ _ (omega (arith, together, flight, a.word))
          ∙ omega (arith, next_split a.done, a.rebalanced);
      in_flight = gone;
      within = omega (arith, a.within, one_less);
      few = omega (arith, a.few, one_less);
      int = a.int;
      word = a.word;
    },
    omega (arith, w.1, one_less, a.within),
  )

  update_amounts-failure :
      IsWithin total (k - 1) (update_amounts false (record s { running = remove_at i s.running }))
  unfolding update_amounts
  update_amounts-failure = (
    record {
      split = a.split;
      whole = a.whole;
      done = a.done;
      rebalanced = a.rebalanced;
      in_flight = gone;
      within = omega (arith, a.within, one_less);
      few = omega (arith, a.few, one_less);
      int = a.int;
      word = a.word;
    },
    omega (arith, w.1, one_less),
  )

-- A round of WaitForResult, for the result of a rebalance that runs, returns and keeps the accounts
-- of the splits, whichever rebalance ends, and however; and where at most k + 1 rounds are left
-- before it, at most k are left after it.
pub wait_round-IsWithin :
    (can_use : Channel → Bool) (total i k : ℕ) (success : Bool) (again : Option Channel)
    (s : Parallel)
    → i < length s.running
    → IsWithin total (k + 1) s
    → (s' : Parallel) × ((wait_round can_use i success again s ≡ some s') × IsWithin total k s')
unfolding wait_round
wait_round-IsWithin can_use total i k true none s b w =
    fire_candidates-Accounts can_use total k _
      (IsWithin-le total _ k _ (update_amounts-success total i s b (k + 1) w) (omega arith))
wait_round-IsWithin can_use total i k true (some c) s b w =
    fire_candidates-Accounts can_use total k _ (
      IsWithin-le total _ k _
        (update_amounts-success total i (record s { candidates = c ∷ s.candidates }) b (k + 2)
          (IsWithin-le total _ _ _
            (with_candidates total (k + 1) 1 s (c ∷ s.candidates) w (omega arith)) (omega arith)))
        (omega arith))
wait_round-IsWithin can_use total i k false again s b w =
    fire_candidates-Accounts can_use total k _
      (IsWithin-le total _ k _ (update_amounts-failure total i s b (k + 1) w) (omega arith))

-- the states that a call of pull or push goes through: its first FireCandidates, and then one round for
-- each result; what can be used may change between the rounds
pub data Reached (begun : Parallel) : Parallel → Type 0 where
  fired :
      (can_use : Channel → Bool) (s : Parallel)
      → fire_candidates can_use begun ≡ some s
      → Reached begun s
  result :
      (can_use : Channel → Bool) (i : ℕ) (success : Bool) (again : Option Channel) (s s' : Parallel)
      → Reached begun s
      → i < length s.running
      → wait_round can_use i success again s ≡ some s'
      → Reached begun s'

Kept-eq :
    {total k : ℕ} {o : Option Parallel} (s : Parallel)
    → (t : Parallel) × ((o ≡ some t) × IsWithin total k t)
    → o ≡ some s
    → Accounts total s
Kept-eq {total} s (t, (e, (a, m))) q =
    subst (Accounts total) (ap (λ x. elim x [ none ↦ t | some y ↦ y ]) (sym e ∙ q)) a

Reached-Accounts :
    (total : ℕ) (begun s : Parallel) → Accounts total begun → Reached begun s → Accounts total s
Reached-Accounts total begun _ a (fired can_use s q) =
    Kept-eq s
      (fire_candidates-Accounts can_use total (rounds_left total begun a) begun (a, omega arith)) q
Reached-Accounts total begun _ a (result can_use i success again s s' r b q) =
    let before = Reached-Accounts total begun s a r in
    Kept-eq s'
      (wait_round-IsWithin can_use total i (rounds_left total s before) success again s b
        (before, omega arith))
      q

-- From a state whose accounts are in order on, whatever rebalances succeed or fail in whatever
-- order, the rebalanced amount and the amount in flight are together at most the amount, what is in
-- flight is the split of each rebalance that runs, and at most splits of them run.
pub Reached-bounds :
    (total : ℕ) (begun s : Parallel)
    → Accounts total begun
    → Reached begun s
    → (s.amount_rebalanced + s.in_flight_amount ≤ s.amount)
      × (s.in_flight_amount ≡ length s.running * s.split_amount)
      × (length s.running ≤ s.splits)
Reached-bounds total begun s a r =
    let k : Accounts total s = Reached-Accounts total begun s a r in
    (
      omega (
        arith,
        k.rebalanced,
        k.in_flight,
        k.whole,
        distribute k.done (length s.running) s.split_amount,
        mul-le (k.done + length s.running) total s.split_amount k.within,
      ),
      k.in_flight,
      k.few,
    )
