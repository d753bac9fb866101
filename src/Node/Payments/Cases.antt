-- ===== src/Node/Payments/Cases.antt =====
-- The operations on payments, case by case: a predicate that holds of each state in which one of them can end.
use circular.Prelude.{String, List, if-cases, Option-cases, str_eq, inl, inr}
use circular.Errors.{Result-cases}
use circular.Lightning.{LightningHop, SendPayFailure, SendPaySuccess}
use circular.Graph.Route.{Route, to_lightning_route}
use circular.Node.Store.{Badger, Json, success}
use circular.Node.State.{Node, Client, PayError, Payment-cases}
use circular.Node.Payments.{
  generate_preimage_hash_pair, manage_timeout, handle_pay_error, send_pay, timeout_text, fee_text,
  last_but_one, sendpay_timeout, delete_key, delete_if_ours, report_failure, on_payment_failure,
  on_payment_success, timeout_key, is_not_found, save, success_key,
}

module _ {D L : Type 0} (b : Badger D) (json : Json) (client : Client L) (P : Node D L → Type 0)
    (m : Node D L) where
  abbrev Ends : {A : Type 0} → A × Node D L → Type 0
  Ends x = P x.1

  pub handle_pay_error-cases :
      (final : List LightningHop) (hash : String) (e : PayError)
      → P m
      → P (manage_timeout b json client hash m).1
      → P (handle_pay_error b json client final hash e m).1
  unfolding handle_pay_error
  handle_pay_error-cases final hash e same timed_out =
      if-cases Ends (str_eq e.message timeout_text) _ _ (λ q. timed_out)
        (λ q.
          if-cases Ends (str_eq e.message fee_text) _ _
            (λ q'. elim (Option-cases e.erring_node) [
              | inl f ↦ rw f same
              | inr (erring, f) ↦ elim (Option-cases (last_but_one final)) [
                | inl g ↦ rw (f, g) same
                | inr (last, g) ↦
                    rw (f, g) (if-cases Ends (str_eq last.id erring) _ _ (λ _. same) (λ _. same))
              ]
            ])
            (λ q'. same))

  pub generate-cases :
      P (record m {
        world = (client.random_preimage m.world).1;
        db =
            (b.set_entry
              (client.sha256 (client.random_preimage m.world).0)
              (client.random_preimage m.world).0
              m.db).1;
      })
      → P (generate_preimage_hash_pair b json client m).1
  unfolding generate_preimage_hash_pair
  generate-cases set =
      elim (Result-cases
        (b.set_entry (client.sha256 (client.random_preimage m.world).0)
          (client.random_preimage m.world).0 m.db).0) [
            | inl (problem, q) ↦ rw (q, generate_preimage_hash_pair) set
            | inr (n, q) ↦ rw (q, generate_preimage_hash_pair) set
          ]

  pub delete_if_ours-cases :
      (hash : String)
      → P m
      → ((key : String) → P (delete_key b json client key m).1)
      → P (delete_if_ours b json client hash m).1
  unfolding delete_if_ours
  delete_if_ours-cases hash same deleted = elim (Result-cases (b.read hash m.db)) [
    | inr (text, q) ↦ rw (q, delete_if_ours) (deleted hash)
    | inl (e, q) ↦
        rw (q, delete_if_ours)
          (if-cases Ends (is_not_found e) _ _
            (λ _. elim (Result-cases (b.read (timeout_key hash) m.db)) [
              | inr (text, q') ↦ rw q' (deleted (timeout_key hash))
              | inl (e', q') ↦ rw q' (
                  if-cases Ends (is_not_found e') _ _ (λ _. same) (λ _. deleted (timeout_key hash)))
            ])
            (λ _. deleted hash))
  ]

  pub on_payment_failure-cases :
      (sf : SendPayFailure)
      → P (delete_if_ours b json client sf.payment_hash m).1
      → P (report_failure b json client sf (delete_if_ours b json client sf.payment_hash m).1)
      → P (on_payment_failure b json client sf m)
  unfolding on_payment_failure
  on_payment_failure-cases sf deleted reported =
      elim (Result-cases (delete_if_ours b json client sf.payment_hash m).0) [
        | inl (e, q) ↦ rw (q, on_payment_failure) deleted
        | inr (n, q) ↦ rw (q, on_payment_failure) reported
      ]

  pub on_payment_success-cases :
      (ss : SendPaySuccess)
      → P (delete_if_ours b json client ss.payment_hash m).1
      → P (
          save b json client
            (success_key ss.payment_hash)
            (success ss)
            (delete_if_ours b json client ss.payment_hash m).1)
      → P (on_payment_success b json client ss m)
  unfolding on_payment_success
  on_payment_success-cases ss deleted saved =
      elim (Result-cases (delete_if_ours b json client ss.payment_hash m).0) [
        | inl (e, q) ↦ rw (q, on_payment_success) deleted
        | inr (n, q) ↦ rw (q, on_payment_success) saved
      ]

module _ {D L : Type 0} (b : Badger D) (json : Json) (client : Client L) (P : Node D L → Type 0)
    (m : Node D L) where
  pub send_pay-cases :
      (path : Route) (hash : String)
      → ((l : L) → P (record m { world = l }))
      → ((l : L) → P (manage_timeout b json client hash (record m { world = l })).1)
      → P (send_pay b json client path hash m).1
  unfolding send_pay
  send_pay-cases path hash same timed_out =
      let sent = client.send_pay_lite (to_lightning_route path) hash m.world in
      elim (Result-cases sent.0) [
        | inl (e, q) ↦ rw (q, send_pay) (same _)
        | inr (n, q) ↦ elim (Payment-cases (client.wait_send_pay hash sendpay_timeout sent.1).0) [
          | inl (preimage, q') ↦ rw (q, send_pay) (rw (q', send_pay) (same _))
          | inr (e, q') ↦
              rw (q, send_pay)
                (rw (q', send_pay)
                  (handle_pay_error-cases b json client P _ (to_lightning_route path) hash e
                    (same _) (timed_out _)))
        ]
      ]
