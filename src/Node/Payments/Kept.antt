-- ===== src/Node/Payments/Kept.antt =====
-- What the operations on payments leave alone: the graph, which learns of a failure in UpdateLiquidity, and whether
-- the plugin is stopped.
use circular.Prelude.{◌≡◌, refl, String}
use circular.Lightning.{SendPayFailure, SendPaySuccess}
use circular.Graph.Route.{Route}
use circular.Node.Store.{Badger, Json}
use circular.Node.State.{Node, Client}
use circular.Node.Payments.{
  generate_preimage_hash_pair, manage_timeout, send_pay, delete_if_ours, report_failure,
  on_payment_failure, on_payment_success,
}
use circular.Node.Payments.Cases.{
  generate-cases, send_pay-cases, delete_if_ours-cases, on_payment_failure-cases,
  on_payment_success-cases,
}

module _ {D L : Type 0} (b : Badger D) (json : Json) (client : Client L) where
  abbrev pub Keeps : Node D L → Node D L → Type 0
  Keeps n m = (m.graph ≡ n.graph) × (m.stopped ≡ n.stopped)

  pub send_pay-Keeps :
      (path : Route) (hash : String) (m : Node D L) → Keeps m (send_pay b json client path hash m).1
  unfolding manage_timeout
  send_pay-Keeps path hash m =
      send_pay-cases b json client (Keeps m) m path hash (λ l. (refl, refl)) (λ l. (refl, refl))

  pub generate-Keeps : (m : Node D L) → Keeps m (generate_preimage_hash_pair b json client m).1
  generate-Keeps m = generate-cases b json client (Keeps m) m (refl, refl)

  delete_if_ours-Keeps :
      (hash : String) (m : Node D L) → Keeps m (delete_if_ours b json client hash m).1
  delete_if_ours-Keeps hash m =
      delete_if_ours-cases b json client (Keeps m) m hash (refl, refl) (λ key. (refl, refl))

  pub on_payment_failure-Keeps :
      (sf : SendPayFailure) (m : Node D L) → Keeps m (on_payment_failure b json client sf m)
  unfolding report_failure
  on_payment_failure-Keeps sf m =
      let deleted = delete_if_ours-Keeps sf.payment_hash m in
      on_payment_failure-cases b json client (Keeps m) m sf deleted deleted

  pub on_payment_success-Keeps :
      (ss : SendPaySuccess) (m : Node D L) → Keeps m (on_payment_success b json client ss m)
  on_payment_success-Keeps ss m =
      let deleted = delete_if_ours-Keeps ss.payment_hash m in
      on_payment_success-cases b json client (Keeps m) m ss deleted deleted
