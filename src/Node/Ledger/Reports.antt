-- ===== src/Node/Ledger/Reports.antt =====
-- OnPaymentFailure, OnPaymentSuccess and SendPay follow the ledger.
use Prim.Native.String.{◌++◌ as str_append, count as count_chars}
use circular.Prelude.{
  ℕ, ◌≡◌, refl, sym, subst, ap, String, true, false, List, if-cases, Bool-cases, Option-cases, inl,
  inr, str_eq,
}
use circular.Errors.{Result, ok, err, key_not_found, Result-cases}
use circular.Lightning.{LightningHop, SendPayFailure, SendPaySuccess}
use circular.Graph.Route.{Route, to_lightning_route}
use circular.Node.Store.{Badger, IsTransactional, Json, Saved, failure, success}
use circular.Node.State.{Payment-cases, Node, Client, PayError}
use circular.Node.Payments.{
  sendpay_timeout, timeout_text, fee_text, last_but_one, timeout_key, success_key, manage_timeout,
  handle_pay_error, send_pay, delete_if_ours, on_payment_failure, on_payment_success, save,
  report_failure,
}
use circular.Node.Ledger.{
  Phase, unknown, pending, timed_out, reused, ended, Ledger, failed, succeeded, enter, is_known,
  apply, IsHash, Entered, Tracks, replay, sent_events,
}
use circular.Node.Ledger.Refines.{
  IsReliable, save-Same, Tracks-Same, remove_hash-Tracks, remove_timeout-Tracks,
  manage_timeout-Tracks,
}

module _ {D L : Type 0} (b : Badger D) (json : Json) (client : Client L) (t : IsTransactional b)
    (r : IsReliable b) where
  -- the entries of a payment, where its phase is known
  pub entered :
      (n : Node D L) (l : Ledger) (hash : String) (p : Phase)
      → Tracks b n l
      → IsHash hash
      → l.phase hash ≡ p
      → Entered p (b.read hash n.db) (b.read (timeout_key hash) n.db)
  entered n l hash p k h e =
      subst (λ q. Entered q (b.read hash n.db) (b.read (timeout_key hash) n.db)) e (k.phases hash h)

  -- deleteIfOurs refuses a payment that is unknown and changes nothing then
  delete_if_ours-unknown :
      (hash : String) (n : Node D L) (l : Ledger)
      → Tracks b n l
      → IsHash hash
      → l.phase hash ≡ unknown
      → delete_if_ours b json client hash n ≡ (err key_not_found, n)
  unfolding delete_if_ours
  delete_if_ours-unknown hash n l k h e =
      let (x, y) = entered n l hash unknown k h e in rw (x, y, delete_if_ours) refl

  -- and forgets any other
  abbrev Deletes : String → Node D L → Ledger → Result ℕ × Node D L → Type 0
  Deletes hash n l d =
      (m : ℕ) × ((d.0 ≡ ok m)
        × (Tracks b d.1 (enter hash (ended (l.phase hash)) l) × (d.1 ≡ record n { db = d.1.db })))

  delete-found :
      (hash preimage : String) (n : Node D L) (l : Ledger)
      → Tracks b n l
      → IsHash hash
      → b.read hash n.db ≡ ok preimage
      → Deletes hash n l (delete_if_ours b json client hash n)
  unfolding delete_if_ours
  delete-found hash preimage n l k h x =
      let (m, q) = r.removes hash n.db in
      rw (x, delete_if_ours)
        (m, (q, (remove_hash-Tracks b json client t r hash h preimage n l k x, refl)))

  delete_if_ours-Deletes :
      (hash : String) (n : Node D L) (l : Ledger) (p : Phase)
      → Tracks b n l
      → IsHash hash
      → l.phase hash ≡ p
      → is_known p ≡ true
      → Deletes hash n l (delete_if_ours b json client hash n)
  unfolding delete_if_ours
  delete_if_ours-Deletes hash n l unknown k h e i = absurd (cc i)
  delete_if_ours-Deletes hash n l (pending preimage) k h e i =
      delete-found hash preimage n l k h ((entered n l hash (pending preimage) k h e).0)
  delete_if_ours-Deletes hash n l (reused preimage) k h e i =
      delete-found hash preimage n l k h ((entered n l hash (reused preimage) k h e).0)
  delete_if_ours-Deletes hash n l timed_out k h e i =
      let (x, y) = entered n l hash timed_out k h e in
      let (m, q) = r.removes (timeout_key hash) n.db in
      rw (x, y, delete_if_ours)
        (
          m,
          (
            q,
            (
              subst
                  (λ p.
                    Tracks b (record n { db = (b.remove (timeout_key hash) n.db).1 })
                      (enter hash (ended p) l))
                  (sym e) (remove_timeout-Tracks b json client t r hash h n l k x),
              refl,
            ),
          ),
        )

  is_known-unknown : (p : Phase) → is_known p ≡ false → p ≡ unknown
  is_known-unknown unknown e = refl
  is_known-unknown (pending preimage) e = absurd (cc e)
  is_known-unknown timed_out e = absurd (cc e)
  is_known-unknown (reused preimage) e = absurd (cc e)

  -- what SaveToDb writes for a payment that has ended
  pub saved-Tracks :
      (prefix hash : String) (value : Saved) (n : Node D L) (l : Ledger)
      → count_chars prefix ≡ 2
      → IsHash hash
      → Tracks b n l
      → Tracks b (save b json client (str_append prefix hash) value n) l
  saved-Tracks prefix hash value n l c h k =
      Tracks-Same b json client t r n l _ k
        (save-Same b json client t r n.save_stats prefix hash value n.db c h)

  pub on_payment_failure-unknown :
      (sf : SendPayFailure) (n : Node D L) (l : Ledger)
      → Tracks b n l
      → IsHash sf.payment_hash
      → l.phase sf.payment_hash ≡ unknown
      → on_payment_failure b json client sf n ≡ n
  unfolding on_payment_failure
  on_payment_failure-unknown sf n l k h e =
      ap
        (λ (d : Result ℕ × Node D L). elim d.0 [
          | err e ↦ d.1
          | ok _ ↦ report_failure b json client sf d.1
        ])
        (delete_if_ours-unknown sf.payment_hash n l k h e)

  pub on_payment_success-unknown :
      (ss : SendPaySuccess) (n : Node D L) (l : Ledger)
      → Tracks b n l
      → IsHash ss.payment_hash
      → l.phase ss.payment_hash ≡ unknown
      → on_payment_success b json client ss n ≡ n
  unfolding on_payment_success
  on_payment_success-unknown ss n l k h e =
      ap
        (λ (d : Result ℕ × Node D L). elim d.0 [
          | err e ↦ d.1
          | ok _ ↦ save b json client (success_key ss.payment_hash) (success ss) d.1
        ])
        (delete_if_ours-unknown ss.payment_hash n l k h e)

  -- OnPaymentFailure follows the ledger: the first report of a known payment ends it and adds an update, and
  -- a report of an unknown one changes nothing.
  pub on_payment_failure-Tracks :
      (sf : SendPayFailure) (n : Node D L) (l : Ledger)
      → Tracks b n l
      → IsHash sf.payment_hash
      → Tracks b (on_payment_failure b json client sf n) (apply (failed sf) l)
  unfolding on_payment_failure report_failure
  on_payment_failure-Tracks sf n l k h = elim (Bool-cases (is_known (l.phase sf.payment_hash))) [
    | inr e ↦ rw e (rw (on_payment_failure-unknown sf n l k h (is_known-unknown _ e)) k)
    | inl e ↦
        let (m, (q, (deleted, same))) =
          delete_if_ours-Deletes sf.payment_hash n l (l.phase sf.payment_hash) k h refl e in
        let saved = saved-Tracks "f_" sf.payment_hash (failure sf) _ _ refl h deleted in
        rw e (
          rw (q, on_payment_failure, report_failure)
            (record { phases = saved.phases; updates = rw saved.updates refl }))
  ]

  pub on_payment_success-Tracks :
      (ss : SendPaySuccess) (n : Node D L) (l : Ledger)
      → Tracks b n l
      → IsHash ss.payment_hash
      → Tracks b (on_payment_success b json client ss n) (apply (succeeded ss) l)
  unfolding on_payment_success
  on_payment_success-Tracks ss n l k h = elim (Bool-cases (is_known (l.phase ss.payment_hash))) [
    | inr e ↦ rw e (rw (on_payment_success-unknown ss n l k h (is_known-unknown _ e)) k)
    | inl e ↦
        let (m, (q, (deleted, same))) =
          delete_if_ours-Deletes ss.payment_hash n l (l.phase ss.payment_hash) k h refl e in
        rw e (
          rw (q, on_payment_success)
            (saved-Tracks "s_" ss.payment_hash (success ss) _ _ refl h deleted))
  ]

  Tracks-world :
      (n : Node D L) (l : Ledger) (w : L) → Tracks b n l → Tracks b (record n { world = w }) l
  Tracks-world n l w k = record { phases = k.phases; updates = k.updates }

  abbrev pub Follows : String → Ledger → Result String × Node D L → Type 0
  Follows hash l x = Tracks b x.1 (replay (sent_events hash x.0) l)

  handle_pay_error-Follows :
      (final : List LightningHop) (hash : String) (e : PayError) (n : Node D L) (l : Ledger)
      → Tracks b n l
      → IsHash hash
      → Follows hash l (handle_pay_error b json client final hash e n)
  unfolding handle_pay_error manage_timeout
  handle_pay_error-Follows final hash e n l k h =
      if-cases (Follows hash l) (str_eq e.message timeout_text) _ _
        (λ q. manage_timeout-Tracks b json client t r hash h n l k)
        (λ q.
          if-cases (Follows hash l) (str_eq e.message fee_text) _ _
            (λ q'. elim (Option-cases e.erring_node) [
              | inl f ↦ rw f k
              | inr (erring, f) ↦ elim (Option-cases (last_but_one final)) [
                | inl g ↦ rw (f, g) k
                | inr (last, g) ↦
                    rw (f, g)
                      (if-cases (Follows hash l) (str_eq last.id erring) _ _ (λ _. k) (λ _. k))
              ]
            ])
            (λ q'. k))

  -- SendPay follows the ledger: the payment times out when SendPay returns ErrSendPayTimeout, and else no
  -- entry changes.
  pub send_pay-Follows :
      (route : Route) (hash : String) (n : Node D L) (l : Ledger)
      → Tracks b n l
      → IsHash hash
      → Follows hash l (send_pay b json client route hash n)
  unfolding send_pay
  send_pay-Follows route hash n l k h =
      let sent = client.send_pay_lite (to_lightning_route route) hash n.world in
      elim (Result-cases sent.0) [
        | inl (e, q) ↦ rw (q, send_pay) (Tracks-world n l sent.1 k)
        | inr (m, q) ↦ elim (Payment-cases (client.wait_send_pay hash sendpay_timeout sent.1).0) [
          | inl (preimage, q') ↦ rw (q, send_pay) (rw (q', send_pay) (Tracks-world n l _ k))
          | inr (e, q') ↦
              rw (q, send_pay)
                (rw (q', send_pay)
                  (handle_pay_error-Follows (to_lightning_route route) hash e _ l
                    (Tracks-world n l _ k) h))
        ]
      ]
