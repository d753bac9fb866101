-- ===== src/Node/Ledger/Pending.antt =====
-- In the ledger a payment is pending only after it began.
use circular.Prelude.{◌≡◌, refl, String, Bool, true, false, List, [], ◌∷◌, if-cases, str_eq}
use circular.Node.Ledger.{
  Phase, unknown, pending, timed_out, reused, ended, Ledger, Event, began, expired, failed,
  succeeded, learned, enter, is_known, apply, replay, answer, NeverBegan,
}
use circular.Node.Payments.{continue}

abbrev pub is_pending : Phase → Bool
is_pending (pending preimage) = true
is_pending (reused preimage) = true
is_pending _ = false

-- a phase that entered: only a payment that begins is pending
enter-not_pending :
    (hash other : String) (p : Phase) (l : Ledger)
    → is_pending p ≡ false
    → is_pending (l.phase hash) ≡ false
    → is_pending ((enter other p l).phase hash) ≡ false
enter-not_pending hash other p l e f =
    if-cases (λ q. is_pending q ≡ false) (str_eq other hash) p (l.phase hash) (λ _. e) (λ _. f)

ended-not_pending : (p : Phase) → is_pending (ended p) ≡ false
ended-not_pending unknown = refl
ended-not_pending (pending preimage) = refl
ended-not_pending timed_out = refl
ended-not_pending (reused preimage) = refl

apply-not_pending :
    (hash : String) (e : Event) (l : Ledger)
    → NeverBegan hash (e ∷ [])
    → is_pending (l.phase hash) ≡ false
    → is_pending ((apply e l).phase hash) ≡ false
apply-not_pending hash (began other preimage) l (n, _) f = rw n f
apply-not_pending hash (expired other) l n f = enter-not_pending hash other timed_out l refl f
apply-not_pending hash (failed sf) l n f =
    if-cases (λ (x : Ledger). is_pending (x.phase hash) ≡ false)
      (is_known (l.phase sf.payment_hash)) _ _
      (λ _.
        enter-not_pending hash sf.payment_hash _ l (ended-not_pending (l.phase sf.payment_hash)) f)
      (λ _. f)
apply-not_pending hash (succeeded ss) l n f =
    if-cases (λ (x : Ledger). is_pending (x.phase hash) ≡ false)
      (is_known (l.phase ss.payment_hash)) _ _
      (λ _.
        enter-not_pending hash ss.payment_hash _ l (ended-not_pending (l.phase ss.payment_hash)) f)
      (λ _. f)
apply-not_pending hash learned l n f = f

NeverBegan-split :
    (hash : String) (e : Event) (events : List Event)
    → NeverBegan hash (e ∷ events)
    → NeverBegan hash (e ∷ []) × NeverBegan hash events
NeverBegan-split hash (began other preimage) events (n, rest) = ((n, tt), rest)
NeverBegan-split hash (expired other) events n = (tt, n)
NeverBegan-split hash (failed sf) events n = (tt, n)
NeverBegan-split hash (succeeded ss) events n = (tt, n)
NeverBegan-split hash learned events n = (tt, n)

pub replay-not_pending :
    (hash : String) (events : List Event) (l : Ledger)
    → NeverBegan hash events
    → is_pending (l.phase hash) ≡ false
    → is_pending ((replay events l).phase hash) ≡ false
replay-not_pending hash [] l n f = f
replay-not_pending hash (e ∷ events) l n f =
    let (now, later) = NeverBegan-split hash e events n in
    replay-not_pending hash events (apply e l) later (apply-not_pending hash e l now f)

pub answer-not_pending : (p : Phase) → answer p ≡ continue → is_pending p ≡ false
answer-not_pending unknown e = refl
answer-not_pending (pending preimage) e = absurd (cc e)
answer-not_pending timed_out e = refl
answer-not_pending (reused preimage) e = absurd (cc e)

pub not_pending-answer : (p : Phase) → is_pending p ≡ false → answer p ≡ continue
not_pending-answer unknown e = refl
not_pending-answer (pending preimage) e = absurd (cc e)
not_pending-answer timed_out e = refl
not_pending-answer (reused preimage) e = absurd (cc e)
