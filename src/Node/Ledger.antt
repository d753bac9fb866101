-- ===== src/Node/Ledger.antt =====
-- What the node promises of its payments, with no database in sight: each payment is unknown, or pending with
-- its preimage, or timed out, or pending again after it timed out. `Tracks` says that the node's state agrees; Refines proves that it stays so.
pub mod Refines
pub mod Reports
pub mod Pending
pub mod Runs
pub mod Honest
pub mod Fixture
mod Examples
use Prim.Native.String.{count as count_chars}
use circular.Prelude.{ℕ, ◌≡◌, String, Bool, true, false, List, [], ◌∷◌, ◌++◌, if◌then◌else◌, str_eq}
use circular.Errors.{Result, ok, err, key_not_found, send_pay_timeout}
use circular.Lightning.{SendPayFailure, SendPaySuccess}
use circular.Node.Store.{Badger}
use circular.Node.State.{Node, LiquidityUpdate}
use circular.Node.Payments.{update_of, timeout_key, HtlcResponse, continue, resolve}

pub data Phase : Type 0 where
  unknown : Phase
  pending : String → Phase
  timed_out : Phase
  reused : String → Phase

pub record Ledger : Type 0 where
  pub phase : String → Phase
  pub updates : List LiquidityUpdate

pub data Event : Type 0 where
  -- a hash with its preimage
  began : String → String → Event
  expired : String → Event
  failed : SendPayFailure → Event
  succeeded : SendPaySuccess → Event
  -- the oldest update was taken
  learned : Event

abbrev pub enter : String → Phase → Ledger → Ledger
enter hash p l = record l { phase = λ h. if str_eq hash h then p else l.phase h }

abbrev pub begun : String → Phase → Phase
begun preimage timed_out = reused preimage
begun preimage (reused _) = reused preimage
begun preimage _ = pending preimage

abbrev pub ended : Phase → Phase
ended (reused _) = timed_out
ended _ = unknown

abbrev pub is_known : Phase → Bool
is_known unknown = false
is_known _ = true

abbrev pub drop_first : List LiquidityUpdate → List LiquidityUpdate
drop_first [] = []
drop_first (u ∷ updates) = updates

-- the first report of a payment that is known ends it, and a failure says something of a channel's liquidity
abbrev pub apply : Event → Ledger → Ledger
apply (began hash preimage) l = enter hash (begun preimage (l.phase hash)) l
apply (expired hash) l = enter hash timed_out l
apply (failed sf) l =
    if is_known (l.phase sf.payment_hash)
    then record (enter sf.payment_hash (ended (l.phase sf.payment_hash)) l) {
      updates = l.updates ++ update_of sf ∷ [];
    }
    else l
apply (succeeded ss) l =
    if is_known (l.phase ss.payment_hash)
    then enter ss.payment_hash (ended (l.phase ss.payment_hash)) l
    else l
apply learned l = record l { updates = drop_first l.updates }

-- a hash is 32 bytes in hexadecimal
abbrev pub IsHash : String → Type 0
IsHash hash = count_chars hash ≡ 64

-- the two entries of a payment, in each of its phases
abbrev pub Entered : Phase → Result String → Result String → Type 0
Entered unknown r t = (r ≡ err key_not_found) × (t ≡ err key_not_found)
Entered (pending preimage) r t = (r ≡ ok preimage) × (t ≡ err key_not_found)
Entered timed_out r t = (r ≡ err key_not_found) × (t ≡ ok "timeout")
Entered (reused preimage) r t = (r ≡ ok preimage) × (t ≡ ok "timeout")

pub record Tracks {D L : Type 0} (b : Badger D) (n : Node D L) (l : Ledger) : Type 0 where
  pub phases :
      (hash : String)
      → IsHash hash
      → Entered (l.phase hash) (b.read hash n.db) (b.read (timeout_key hash) n.db)
  pub updates : n.updates ≡ l.updates

-- the events in the order of the list
abbrev pub replay : List Event → Ledger → Ledger
replay [] l = l
replay (e ∷ events) l = replay events (apply e l)

-- the events of an answer of SendPay
abbrev pub sent_events : String → Result String → List Event
sent_events hash (ok preimage) = []
sent_events hash (err send_pay_timeout) = expired hash ∷ []
sent_events hash (err _) = []

-- what the hook answers in each phase
abbrev pub answer : Phase → HtlcResponse
answer (pending preimage) = resolve preimage
answer (reused preimage) = resolve preimage
answer _ = continue

-- the events begin no payment of the hash
abbrev pub NeverBegan : String → List Event → Type 0
NeverBegan hash [] = Unit
NeverBegan hash (began other preimage ∷ events) =
    (str_eq other hash ≡ false) × NeverBegan hash events
NeverBegan hash (_ ∷ events) = NeverBegan hash events
