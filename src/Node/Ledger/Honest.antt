-- ===== src/Node/Ledger/Honest.antt =====
-- The preimages in the database of the node, whether its writes succeed or fail: each entry under a hash is a preimage
-- of that hash, so that the hook of cmd/circular resolves a payment with no other.
use Prim.Native.String.{◌++◌ as str_append, count as count_chars}
use circular.Prelude.{
  ◌≡◌, ◌≢◌, refl, sym, subst, ap, ◌∙◌, String, Bool, List, str_eq, eq_iff, Bool-cases, inl, inr,
  arith, List-cases,
}
use circular.Errors.{ok, Result-cases}
use circular.Node.Store.{Badger, IsTransactional, Json, Saved, save_to_db}
use circular.Node.State.{Node, Client}
use circular.Node.Payments.{
  manage_timeout, delete_if_ours, report_failure, on_htlc_accepted, resolve, update_liquidity,
}
use circular.Node.Payments.Cases.{
  generate-cases, send_pay-cases, delete_if_ours-cases, on_payment_failure-cases,
  on_payment_success-cases,
}
use circular.Node.Ledger.{Event, IsHash}
use circular.Node.Ledger.Refines.{count-key}
use circular.Node.Ledger.Runs.{
  Step, generate, send, fail, succeed, note, elsewhere, learn, Runs, here, next,
}

module _ {D L : Type 0} (b : Badger D) (json : Json) (client : Client L)
    (t : IsTransactional b) where
  abbrev pub IsHonest : D → Type 0
  IsHonest d =
      (hash preimage : String)
      → IsHash hash
      → b.read hash d ≡ ok preimage
      → client.sha256 preimage ≡ hash

  abbrev Honest : Node D L → Type 0
  Honest n = IsHonest n.db

  -- what is written under a hash is a preimage of it
  set-IsHonest :
      (key v : String) (d : D)
      → (IsHash key → client.sha256 v ≡ key)
      → IsHonest d
      → IsHonest (b.set_entry key v d).1
  set-IsHonest key v d true_to honest hash preimage h e =
      elim (Result-cases (b.set_entry key v d).0) [
        | inl (problem, q) ↦
            honest hash preimage h (sym (t.read-set_failed key hash v d problem q) ∙ e)
        | inr (n, q) ↦ elim (Bool-cases (str_eq key hash)) [
          | inl s ↦
              let same = (eq_iff key hash).0 s in
              let written : v ≡ preimage = cc (sym (rw s at (t.read-set key hash v d n q)) ∙ e) in
              ap client.sha256 (sym written) ∙ true_to (subst IsHash (sym same) h) ∙ same
          | inr s ↦ honest hash preimage h (sym (rw s at (t.read-set key hash v d n q)) ∙ e)
        ]
      ]

  remove-IsHonest : (key : String) (d : D) → IsHonest d → IsHonest (b.remove key d).1
  remove-IsHonest key d honest hash preimage h e = elim (Result-cases (b.remove key d).0) [
    | inl (problem, q) ↦
        honest hash preimage h (sym (t.read-remove_failed key hash d problem q) ∙ e)
    | inr (n, q) ↦ elim (Bool-cases (str_eq key hash)) [
      | inl s ↦ absurd (cc (sym (rw s at (t.read-remove key hash d n q)) ∙ e))
      | inr s ↦ honest hash preimage h (sym (rw s at (t.read-remove key hash d n q)) ∙ e)
    ]
  ]

  -- a key with a prefix is no hash
  prefix-IsHonest :
      (prefix hash v : String) (d : D)
      → count_chars prefix ≢ 0
      → IsHash hash
      → IsHonest d
      → IsHonest (b.set_entry (str_append prefix hash) v d).1
  prefix-IsHonest prefix hash v d c h =
      set-IsHonest (str_append prefix hash) v d
        (λ i. absurd (c (omega (arith, count-key prefix hash h, i))))

  save-IsHonest :
      (save_stats : Bool) (prefix hash : String) (value : Saved) (d : D)
      → count_chars prefix ≢ 0
      → IsHash hash
      → IsHonest d
      → IsHonest (save_to_db b json save_stats (str_append prefix hash) value d).1
  unfolding save_to_db
  save-IsHonest save_stats prefix hash value d c h honest = elim (Bool-cases save_stats) [
    | inr f ↦ rw f honest
    | inl s ↦ elim (Result-cases (json.marshal value)) [
      | inl (e, q) ↦ rw (s, save_to_db) (rw (q, save_to_db) honest)
      | inr (text, q) ↦
          rw (s, save_to_db) (rw (q, save_to_db) (prefix-IsHonest prefix hash text d c h honest))
    ]
  ]

  deleted-Honest :
      (hash : String) (n : Node D L) → Honest n → Honest (delete_if_ours b json client hash n).1
  deleted-Honest hash n honest =
      delete_if_ours-cases b json client Honest n hash honest
        (λ key. remove-IsHonest key n.db honest)

  Step-Honest :
      {n m : Node D L} {events : List Event} → Step b json client n events m → Honest n → Honest m
  unfolding manage_timeout report_failure update_liquidity
  Step-Honest (generate n) honest =
      generate-cases b json client Honest n (set-IsHonest _ _ n.db (λ h. refl) honest)
  Step-Honest (send n r hash h) honest =
      send_pay-cases b json client Honest n r hash (λ l. honest)
        (λ l.
          prefix-IsHonest "timeout_" hash "timeout" _ (omega arith) h
            (remove-IsHonest hash n.db honest))
  Step-Honest (fail n sf h) honest =
      let deleted = deleted-Honest sf.payment_hash n honest in
      on_payment_failure-cases b json client Honest n sf deleted
        (save-IsHonest _ "f_" sf.payment_hash _ _ (omega arith) h deleted)
  Step-Honest (succeed n ss h) honest =
      let deleted = deleted-Honest ss.payment_hash n honest in
      on_payment_success-cases b json client Honest n ss deleted
        (save-IsHonest _ "s_" ss.payment_hash _ _ (omega arith) h deleted)
  Step-Honest (note n hash r h) honest = save-IsHonest _ "r_" hash _ n.db (omega arith) h honest
  Step-Honest (elsewhere n world graph peers stopped) honest = honest
  Step-Honest (learn n now) honest = elim (List-cases n.updates) [
    | inl q ↦ rw (q, update_liquidity) honest
    | inr (u, rest, q) ↦ rw (q, update_liquidity) honest
  ]

  pub Runs-Honest :
      {n m : Node D L} {events : List Event}
      → Runs b json client n events m
      → IsHonest n.db
      → IsHonest m.db
  Runs-Honest here honest = honest
  Runs-Honest (next r s) honest = Step-Honest s (Runs-Honest r honest)

  -- Whether the writes to the database succeed or fail, if its transactions do all or nothing, then
  -- after every run of the node from a database in which each entry under a hash of 64 characters
  -- is a preimage of that hash, the hook resolves a payment of such a hash with a preimage of its
  -- hash, and with nothing else.
  pub on_htlc_accepted-IsPreimage :
      (n m : Node D L) (events : List Event) (hash preimage : String)
      → IsHonest n.db
      → Runs b json client n events m
      → IsHash hash
      → on_htlc_accepted b json client hash m ≡ resolve preimage
      → client.sha256 preimage ≡ hash
  unfolding on_htlc_accepted
  on_htlc_accepted-IsPreimage n m events hash preimage honest r h e =
      elim (Result-cases (b.read hash m.db)) [
        | inl (problem, q) ↦ absurd (cc (rw (q, on_htlc_accepted) at e))
        | inr (found, q) ↦
            let same : found ≡ preimage = cc (rw (q, on_htlc_accepted) at e) in
            Runs-Honest r honest hash preimage h (q ∙ ap ok same)
      ]
