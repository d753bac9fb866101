-- ===== src/Rebalance/Parallel/Report.antt =====
-- result.go of rebalance/parallel: the report of a call. A Success is a map from fee rates to amounts, an
-- association list here.
use circular.Prelude.{
  ℕ, ◌+◌, ◌<◌, ◌≤◌, ◌/◌, ◌≡◌, String, List, [], ◌∷◌, Map, lookup, insert, get_or, ◌==◌,
  if◌then◌else◌, add64, add64_lem, u64_mod, arith,
}

abbrev pub Rates : Type 0
Rates = List (ℕ × ℕ)

pub record Report : Type 0 where
  pub rebalance_target : ℕ
  pub rebalanced_amount : ℕ
  pub attempts : ℕ
  pub successes : Map Rates

unfoldable pub new_result : ℕ → Report
new_result target = record {
  rebalance_target = target / 1000;
  rebalanced_amount = 0;
  attempts = 0;
  successes = [];
}

-- Successes[alias][ppm] += amount, with the entry that a missing key gets
unfoldable pub add_rate : ℕ → ℕ → Rates → Rates
add_rate ppm amount [] = (ppm, amount) ∷ []
add_rate ppm amount ((p, moved) ∷ rates) =
    let rest = add_rate ppm amount rates in
    if p == ppm then (p, add64 moved amount) ∷ rates else (p, moved) ∷ rest

unfoldable pub add_success_generic : String → ℕ → ℕ → Report → Report
unfolding add_rate
add_success_generic alias ppm amount r = record r {
  rebalanced_amount = add64 r.rebalanced_amount amount;
  successes = insert alias (add_rate ppm amount (get_or [] (lookup alias r.successes))) r.successes;
}

abbrev pub sum_rates : Rates → ℕ
sum_rates [] = 0
sum_rates ((p, moved) ∷ rates) = moved + sum_rates rates

abbrev pub sum_successes : Map Rates → ℕ
sum_successes [] = 0
sum_successes ((alias, rates) ∷ m) = sum_rates rates + sum_successes m

sum-add_rate :
    (ppm amount : ℕ) (rates : Rates)
    → sum_rates rates + amount < u64_mod
    → sum_rates (add_rate ppm amount rates) ≡ sum_rates rates + amount
unfolding add_rate
sum-add_rate ppm amount [] h = omega arith
sum-add_rate ppm amount ((p, moved) ∷ rates) h =
    ground (arith, sum-add_rate ppm amount rates, add64_lem moved amount)

sum_rates-le :
    (alias : String) (m : Map Rates) → sum_rates (get_or [] (lookup alias m)) ≤ sum_successes m
unfolding lookup
sum_rates-le alias [] = omega arith
sum_rates-le alias ((k, rates) ∷ m) = ground (arith, sum_rates-le alias m)

sum-insert :
    (alias : String) (rates : Rates) (m : Map Rates)
    → sum_successes (insert alias rates m) + sum_rates (get_or [] (lookup alias m))
      ≡ sum_successes m + sum_rates rates
unfolding lookup insert
sum-insert alias rates [] = omega arith
sum-insert alias rates ((k, old) ∷ m) = ground (arith, sum-insert alias rates m)

-- Where the entries of the report add up to its rebalanced amount, they still do after
-- AddSuccessGeneric, and the rebalanced amount has grown by the new amount, if the sum fits 64
-- bits.
pub add_success_generic-sum :
    (alias : String) (ppm amount : ℕ) (r : Report)
    → sum_successes r.successes ≡ r.rebalanced_amount
    → r.rebalanced_amount + amount < u64_mod
    → (sum_successes (add_success_generic alias ppm amount r).successes
        ≡ (add_success_generic alias ppm amount r).rebalanced_amount)
      × ((add_success_generic alias ppm amount r).rebalanced_amount ≡ r.rebalanced_amount + amount)
unfolding add_success_generic
add_success_generic-sum alias ppm amount r e h =
    let old = get_or [] (lookup alias r.successes) in
    let total = add64_lem r.rebalanced_amount amount h in
    let least = sum_rates-le alias r.successes in
    let more = sum-add_rate ppm amount old (omega (arith, least, e)) in
    (omega (arith, total, more, sum-insert alias (add_rate ppm amount old) r.successes, e), total)
