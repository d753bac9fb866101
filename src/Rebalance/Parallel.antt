-- ===== src/Rebalance/Parallel.antt =====
-- rebalance/parallel: many rebalances of one split of the amount each, at most `splits` of them at a time.
-- The goroutines that Fire starts are the list `running`, in any order; one that ends sends its result. The
-- rules by which pull and push choose a channel are a parameter here, and implemented in Methods. `can_use`
-- is `is_usable` of the peers and of CanUseChannel; both may change from round to round.
pub mod Report
pub mod Candidates
pub mod Methods
pub mod Wait
pub mod Settled
pub mod Ends
pub mod Accounts
pub mod Rounds
mod Examples
mod CallExamples
use circular.Prelude.{
  Map, ℕ, zero, suc, ◌+◌, ◌*◌, ◌/◌, ◌%◌, String, Bool, true, false, Option, none, some, List, [],
  ◌∷◌, ◌&&◌, not, if◌then◌else◌, ◌==◌, ltb, slt, add64, sub64, mul64, length, remove_at,
}
use circular.Errors.{
  Result, ok, err, amount_less_than_split_amount, amount_not_multiple_of_split_amount, panic,
}
use circular.Lightning.{PeerChannel, Peer}
use circular.Graph.Channel.{Channel}
use circular.Node.Peers.{get_peer_channel_from_graph_channel}
use circular.Rebalance.Params.{or_default, default_attempts, default_maxhops, default_maxppm}

pub record Parallel : Type 0 where
  pub candidates : List Channel
  pub running : List Channel
  pub amount_rebalanced : ℕ
  pub in_flight_amount : ℕ
  pub amount : ℕ
  pub max_ppm : ℕ
  pub splits : ℕ
  pub split_amount : ℕ
  pub attempts : ℕ
  pub max_hops : ℕ

abbrev pub default_parallel_amount : ℕ
default_parallel_amount = 400000

abbrev pub default_splits : ℕ
default_splits = 4

abbrev pub default_split_amount : ℕ
default_split_amount = 100000

abbrev pub or_else : ℕ → ℕ → ℕ
or_else n d = if n == 0 then d else n

unfoldable pub set_generic_defaults : Parallel → Parallel
set_generic_defaults s = record s {
  amount = mul64 (or_else s.amount default_parallel_amount) 1000;
  splits = or_else s.splits default_splits;
  split_amount = mul64 (or_else s.split_amount default_split_amount) 1000;
  max_ppm = or_else s.max_ppm default_maxppm;
  attempts = or_default s.attempts default_attempts;
  max_hops = or_default s.max_hops default_maxhops;
  amount_rebalanced = 0;
  in_flight_amount = 0;
}

-- amount % 0 is a panic; a check that passes returns 0
unfoldable pub validate_generic_parameters : Parallel → Result ℕ
validate_generic_parameters s =
    if ltb s.amount s.split_amount
    then err amount_less_than_split_amount
    else if s.split_amount == 0
    then err panic
    else if not (s.amount % s.split_amount == 0)
    then err amount_not_multiple_of_split_amount
    else ok 0

-- what GetNextCandidate asks of a candidate: its peer channel is known, and CanUseChannel passes it
unfoldable pub is_usable : Map Peer → (PeerChannel → Result ℕ) → Channel → Bool
is_usable peers can_use_channel c = elim (get_peer_channel_from_graph_channel peers c) [
  | err e ↦ false
  | ok channel ↦ elim (can_use_channel channel) [ err e ↦ false | ok _ ↦ true ]
]

-- GetNextCandidate: candidates that cannot be used are dropped
unfoldable pub get_next_candidate :
    (Channel → Bool) → List Channel → Option (Channel × List Channel)
get_next_candidate can_use [] = none
get_next_candidate can_use (c ∷ candidates) =
    if can_use c then some (c, candidates) else get_next_candidate can_use candidates

-- carryOn && splitsInFlight < r.splits
unfoldable pub may_fire : Parallel → Bool
may_fire s =
    ltb (add64 s.amount_rebalanced s.in_flight_amount) s.amount
    && slt (s.in_flight_amount / s.split_amount) s.splits

unfoldable pub fire : Channel → List Channel → Parallel → Parallel
fire c candidates s = record s {
  candidates = candidates;
  running = c ∷ s.running;
  in_flight_amount = add64 s.in_flight_amount s.split_amount;
}

-- the loop of FireCandidates; each round takes a candidate, so that there is a round for each, and one more
unfoldable pub fire_loop : (Channel → Bool) → ℕ → Parallel → Option Parallel
unfolding may_fire fire get_next_candidate
fire_loop can_use zero s = none
fire_loop can_use (suc fuel) s =
    if may_fire s
    then elim (get_next_candidate can_use s.candidates) [
      | none ↦ some (record s { candidates = [] })
      | some (c, candidates) ↦ fire_loop can_use fuel (fire c candidates s)
    ]
    else some s

unfoldable pub fire_candidates : (Channel → Bool) → Parallel → Option Parallel
unfolding fire_loop
fire_candidates can_use s = fire_loop can_use (length s.candidates + 1) s

unfoldable pub update_amounts : Bool → Parallel → Parallel
update_amounts success s =
    let left = sub64 s.in_flight_amount s.split_amount in
    if success
    then record s {
      in_flight_amount = left;
      amount_rebalanced = add64 s.amount_rebalanced s.split_amount;
    }
    else record s { in_flight_amount = left }

-- EnqueueCandidate puts a channel in front, if it finds it
abbrev pub enqueue : Option Channel → Parallel → Parallel
enqueue none s = s
enqueue (some c) s = record s { candidates = c ∷ s.candidates }

-- A round of WaitForResult, but for the report of the successes, the count of the attempts and the balances
-- of the peers, which the accounts do not read: the rebalance `i` of `running` has sent its result
unfoldable pub wait_round :
    (Channel → Bool) → ℕ → Bool → Option Channel → Parallel → Option Parallel
unfolding update_amounts fire_candidates
wait_round can_use i success again s =
    let ended = record s { running = remove_at i s.running } in
    fire_candidates can_use
      (update_amounts success (if success then enqueue again ended else ended))
