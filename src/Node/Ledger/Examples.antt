-- ===== src/Node/Ledger/Examples.antt =====
-- The theorems about payments, at runs of the fixture.
use circular.Prelude.{ℕ, ◌≡◌, refl, String, List, [], ◌∷◌, Map, lookup, insert}
use circular.Lightning.{SendPayFailure}
use circular.Graph.Route.{Route, new_route}
use circular.Node.State.{Node}
use circular.Node.Payments.{
  generate_preimage_hash_pair, send_pay, on_payment_failure, on_htlc_accepted, continue, resolve,
}
use circular.Node.Ledger.{Event, began, expired, failed, Tracks, replay}
use circular.Node.Ledger.Honest.{IsHonest, on_htlc_accepted-IsPreimage}
use circular.Node.Ledger.Runs.{
  Runs, here, next, generate, send, fail, Runs-Tracks, on_htlc_accepted-Runs,
  on_htlc_accepted-stays,
}
use circular.Node.Ledger.Fixture.{
  memory, memory-IsTransactional, memory-IsReliable, hash, client, json, fresh_node, fresh_ledger,
}

fresh-Tracks : Tracks memory fresh_node fresh_ledger
unfolding lookup
fresh-Tracks = record { phases = λ h i. (refl, refl); updates = refl }

abbrev failed_payment : SendPayFailure
failed_payment = record {
  payment_hash = hash;
  milli_satoshi = 2000000;
  erring_channel = "1x1x1";
  erring_direction = 0;
}

abbrev short_route : Route
short_route = new_route "me" "me" 2000000 []

abbrev Steps : Node (Map String) ℕ → List Event → Node (Map String) ℕ → Type 0
Steps = Runs memory json client

-- a payment begins, times out and fails
abbrev after_begin : Node (Map String) ℕ
after_begin = (generate_preimage_hash_pair memory json client fresh_node).1

abbrev after_send : Node (Map String) ℕ
after_send = (send_pay memory json client short_route hash after_begin).1

abbrev events : List Event
events = began hash "feed" ∷ expired hash ∷ failed failed_payment ∷ []

a_run : Steps fresh_node events (on_payment_failure memory json client failed_payment after_send)
unfolding lookup send_pay
a_run =
    next (next (next here (generate fresh_node)) (send after_begin short_route hash refl))
      (fail after_send failed_payment refl)

Runs-Tracks_example :
    Tracks memory
      (on_payment_failure memory json client failed_payment after_send)
      (replay events fresh_ledger)
Runs-Tracks_example =
    Runs-Tracks memory json client memory-IsTransactional memory-IsReliable (λ preimage. refl)
      fresh_ledger a_run fresh-Tracks

-- after the first step the hook pays
begins : Steps fresh_node (began hash "feed" ∷ []) after_begin
unfolding lookup
begins = next here (generate fresh_node)

on_htlc_accepted-Runs_example :
    on_htlc_accepted memory json client hash after_begin ≡ resolve "feed"
on_htlc_accepted-Runs_example =
    on_htlc_accepted-Runs memory json client memory-IsTransactional memory-IsReliable
      (λ preimage. refl) fresh_ledger hash begins fresh-Tracks refl

-- a report of a payment that nobody has begun
reported :
    Steps fresh_node
      (failed failed_payment ∷ [])
      (on_payment_failure memory json client failed_payment fresh_node)
reported = next here (fail fresh_node failed_payment refl)

passes : on_htlc_accepted memory json client hash fresh_node ≡ continue
unfolding on_htlc_accepted lookup
passes = refl

on_htlc_accepted-stays_example :
    on_htlc_accepted memory json client hash
      (on_payment_failure memory json client failed_payment fresh_node)
    ≡ continue
on_htlc_accepted-stays_example =
    on_htlc_accepted-stays memory json client memory-IsTransactional memory-IsReliable
      (λ preimage. refl) fresh_ledger hash reported fresh-Tracks refl tt passes

nothing-IsHonest : IsHonest memory json client memory-IsTransactional fresh_node.db
unfolding lookup
nothing-IsHonest h preimage i e = absurd (cc e)

resolves : on_htlc_accepted memory json client hash after_begin ≡ resolve "feed"
unfolding on_htlc_accepted generate_preimage_hash_pair lookup insert
resolves = refl

on_htlc_accepted-IsPreimage_example : client.sha256 "feed" ≡ hash
on_htlc_accepted-IsPreimage_example =
    on_htlc_accepted-IsPreimage memory json client memory-IsTransactional fresh_node after_begin
      (began hash "feed" ∷ []) hash "feed" nothing-IsHonest begins refl resolves
