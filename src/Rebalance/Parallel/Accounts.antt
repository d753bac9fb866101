-- ===== src/Rebalance/Parallel/Accounts.antt =====
-- The accounts of the splits: whatever rebalances succeed or fail, in whatever order, what is rebalanced and
-- what is in flight are never more than the amount together, and no more than `splits` splits are in flight.
use circular.Prelude.{
  ℕ, zero, suc, ◌+◌, ◌-◌, ◌*◌, ◌/◌, ◌%◌, ◌<◌, ◌≤◌, ◌≡◌, refl, sym, ap, ◌∙◌, Bool, true, Option,
  some, List, [], ◌∷◌, inl, inr, length, arith, slt_lem, add64, add64_lem, u64_mod, i64_half,
  Bool-cases, Option-cases,
}
use circular.Errors.{ok}
use circular.Graph.Channel.{Channel}
use circular.Rebalance.Parallel.{
  validate_generic_parameters, Parallel, get_next_candidate, may_fire, fire, fire_loop,
  fire_candidates,
}

-- `total` splits make the amount, `done` of them are rebalanced, and one runs for each of `running`
pub record Accounts (total : ℕ) (s : Parallel) : Type 0 where
  pub split : 0 < s.split_amount
  pub whole : s.amount ≡ total * s.split_amount
  pub done : ℕ
  pub rebalanced : s.amount_rebalanced ≡ done * s.split_amount
  pub in_flight : s.in_flight_amount ≡ length s.running * s.split_amount
  pub within : done + length s.running ≤ total
  pub few : length s.running ≤ s.splits
  pub int : s.splits < i64_half
  pub word : s.amount + s.split_amount < u64_mod

pub mul-lt : (a b c : ℕ) → a * c < b * c → a < b
mul-lt a b c h = grind arith

pub mul-le : (a b c : ℕ) → a ≤ b → a * c ≤ b * c
mul-le a b c h = grind arith

pub mul-div : (a c : ℕ) → 0 < c → a * c / c ≡ a
mul-div a c h = grind arith

pub distribute : (a b c : ℕ) → a * c + b * c ≡ (a + b) * c
distribute a b c = grind arith

next_candidate-length :
    (can_use : Channel → Bool) (candidates rest : List Channel) (c : Channel)
    → get_next_candidate can_use candidates ≡ some (c, rest)
    → length rest < length candidates
unfolding get_next_candidate
next_candidate-length can_use [] rest c e = absurd (cc e)
next_candidate-length can_use (d ∷ candidates) rest c e =
    ground (arith, next_candidate-length can_use candidates rest c)

-- each round of WaitForResult takes a candidate, a rebalance that runs, or a split that is left
abbrev pub rounds_left : (total : ℕ) (s : Parallel) → Accounts total s → ℕ
rounds_left total s a = length s.candidates + length s.running + (total - a.done)

abbrev pub IsWithin : ℕ → ℕ → Parallel → Type 0
IsWithin total k s = (a : Accounts total s) × (rounds_left total s a ≤ k)

fire-IsWithin :
    (total k : ℕ) (s : Parallel) (c : Channel) (candidates : List Channel)
    → IsWithin total k s
    → length candidates < length s.candidates
    → may_fire s ≡ true
    → IsWithin total k (fire c candidates s)
unfolding may_fire fire
fire-IsWithin total n s c candidates (a, m) short t =
    let size = s.split_amount in
    let k = length s.running in
    let sum : a.done * size + k * size ≡ (a.done + k) * size = distribute a.done k size in
    let most : (a.done + k) * size ≤ total * size = mul-le (a.done + k) total size a.within in
    let div : k * size / size ≡ k = mul-div k size a.split in
    let rate : s.in_flight_amount / s.split_amount ≡ k = ap (λ x. x / size) a.in_flight ∙ div in
    let added : add64 s.amount_rebalanced s.in_flight_amount
        ≡ s.amount_rebalanced + s.in_flight_amount =
      add64_lem _ _ (omega (arith, a.rebalanced, a.in_flight, a.whole, a.word)) in
    let more : a.done + k < total =
      mul-lt (a.done + k) total size
        (ground (arith, t, added, a.rebalanced, a.in_flight, a.whole)) in
    let free : k < s.splits =
      ground (arith, t, rate, slt_lem k s.splits (omega (arith, a.few, a.int)) a.int) in
    let next : (k + 1) * size ≡ k * size + size = grind arith in
    (
      record {
        split = a.split;
        whole = a.whole;
        done = a.done;
        rebalanced = a.rebalanced;
        in_flight =
            add64_lem _ _ (omega (arith, a.rebalanced, a.in_flight, a.whole, a.word))
            ∙ omega (arith, next, a.in_flight);
        within = omega arith;
        few = omega arith;
        int = a.int;
        word = a.word;
      },
      omega (arith, m, short),
    )

pub IsWithin-le : (total j k : ℕ) (s : Parallel) → IsWithin total j s → j ≤ k → IsWithin total k s
IsWithin-le total j k s (a, m) h = (a, omega (arith, m))

-- the candidates change, and the accounts do not
pub with_candidates :
    (total k j : ℕ) (s : Parallel) (l : List Channel)
    → IsWithin total k s
    → length l ≤ length s.candidates + j
    → IsWithin total (k + j) (record s { candidates = l })
with_candidates total k j s l (a, m) b = (
  record {
    split = a.split;
    whole = a.whole;
    done = a.done;
    rebalanced = a.rebalanced;
    in_flight = a.in_flight;
    within = a.within;
    few = a.few;
    int = a.int;
    word = a.word;
  },
  omega (arith, m, b),
)

pub any_candidates :
    (total : ℕ) (s : Parallel) (l : List Channel)
    → Accounts total s
    → Accounts total (record s { candidates = l })
any_candidates total s l a =
    (with_candidates total (rounds_left total s a) (length l) s l (a, omega arith) (omega arith)).0

module _ (can_use : Channel → Bool) (total k : ℕ) where
  -- the accounts are in order, and at most `k` rounds are left
  abbrev Kept : ℕ → Option Parallel → Type 0
  Kept k o = (s : Parallel) × ((o ≡ some s) × IsWithin total k s)

  fire_loop-Accounts :
      (fuel : ℕ) (s : Parallel)
      → length s.candidates < fuel
      → IsWithin total k s
      → Kept k (fire_loop can_use fuel s)
  unfolding fire_loop
  fire_loop-Accounts zero s b (a, m) = absurd (omega arith)
  fire_loop-Accounts (suc fuel) s b (a, m) = elim (Bool-cases (may_fire s)) [
    | inr t ↦ rw (t, fire_loop) (s, (refl, (a, m)))
    | inl t ↦ elim (Option-cases (get_next_candidate can_use s.candidates)) [
      | inl e ↦
          rw (t, fire_loop)
            (rw (e, fire_loop)
              (
                record s { candidates = [] },
                (
                  refl,
                  IsWithin-le total (k + 0) k _
                      (with_candidates total k 0 s [] (a, m) (omega arith)) (omega arith),
                ),
              ))
      | inr ((c, candidates), e) ↦
          let next = next_candidate-length can_use s.candidates candidates c e in
          let (s', (q, k')) =
            fire_loop-Accounts fuel (fire c candidates s) (unfold fire in omega arith)
              (fire-IsWithin total k s c candidates (a, m) next t) in
          (s', (rw (t, fire_loop) (rw (e, fire_loop) q), k'))
    ]
  ]

  pub fire_candidates-Accounts :
      (s : Parallel) → IsWithin total k s → Kept k (fire_candidates can_use s)
  unfolding fire_candidates
  fire_candidates-Accounts s w = fire_loop-Accounts (length s.candidates + 1) s (omega arith) w

-- Parameters that pass the validation, with nothing rebalanced and nothing in flight, fewer than 2
-- ^ 63 splits, and an amount and a split that add up below 2 ^ 64, start with the accounts in
-- order: the amount is a whole number of splits.
pub validated-Accounts :
    (s : Parallel) (n : ℕ)
    → validate_generic_parameters s ≡ ok n
    → s.running ≡ []
    → s.amount_rebalanced ≡ 0
    → s.in_flight_amount ≡ 0
    → s.splits < i64_half
    → s.amount + s.split_amount < u64_mod
    → Accounts (s.amount / s.split_amount) s
unfolding validate_generic_parameters
validated-Accounts s n e q r f b c =
    let none_runs : length s.running ≡ 0 = ap (λ (l : List Channel). length l) q in
    let positive : 0 < s.split_amount = ground (arith, e) in
    let exact : s.amount % s.split_amount ≡ 0 = ground (arith, e) in
    record {
      split = positive;
      whole = grind (arith, exact);
      done = 0;
      rebalanced = r ∙ omega arith;
      in_flight = f ∙ sym (ap (λ x. x * s.split_amount) none_runs ∙ omega arith);
      within = omega (arith, none_runs);
      few = omega (arith, none_runs);
      int = b;
      word = c;
    }
