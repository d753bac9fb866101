-- ===== src/Node/Payments.antt =====
-- node/payment.go, node/preimage.go, node/liquidity.go and cmd/circular/hooks.go: a payment from its preimage
-- to the report of lightningd, and what a failure says of a channel's liquidity.
pub mod Cases
pub mod Kept
use Prim.Native.String.{◌++◌ as str_append}
use Prim.Native.Nat.{bit_xor}
use circular.Prelude.{
  ℕ, String, Bool, true, false, Option, none, some, List, [], ◌∷◌, ◌++◌, if◌then◌else◌, str_eq,
  sub64, itoa,
}
use circular.Errors.{
  Error, Result, ok, err, key_not_found, library, panic, first_peer_not_ready, send_pay_timeout,
  wire_fee_insufficient,
}
use circular.Lightning.{LightningHop, SendPayFailure, SendPaySuccess}
use circular.Util.{min}
use circular.Graph.Route.{Route, to_lightning_route}
use circular.Graph.Network.{Graph, update_channel}
use circular.Node.Store.{
  Badger, Json, Saved, failure, success, save_to_db, failure_prefix, success_prefix, timeout_prefix,
}
use circular.Node.State.{Node, LiquidityUpdate, Client, PayError, paid, unpaid}

-- consts/payments.go: 2 minutes
abbrev pub sendpay_timeout : ℕ
sendpay_timeout = 120

-- the texts of ErrSendPayTimeout and of ErrWireFeeInsufficient
abbrev pub timeout_text : String
timeout_text = "200:Timed out while waiting"

abbrev pub fee_text : String
fee_text = "204:failed: WIRE_FEE_INSUFFICIENT (reply from remote)"

abbrev pub is_not_found : Error → Bool
is_not_found key_not_found = true
is_not_found _ = false

-- finalRoute[len(finalRoute)-2]
unfoldable pub last_but_one : List LightningHop → Option LightningHop
last_but_one [] = none
last_but_one (a ∷ []) = none
last_but_one (a ∷ b ∷ []) = some a
last_but_one (a ∷ b ∷ c ∷ hops) = last_but_one (b ∷ c ∷ hops)

abbrev pub timeout_key : String → String
timeout_key hash = str_append timeout_prefix hash

abbrev pub failure_key : String → String
failure_key hash = str_append failure_prefix hash

abbrev pub success_key : String → String
success_key hash = str_append success_prefix hash

-- what the hook answers to lightningd
pub data HtlcResponse : Type 0 where
  continue : HtlcResponse
  resolve : String → HtlcResponse

-- the update that a failure sends
abbrev pub update_of : SendPayFailure → LiquidityUpdate
update_of sf = record {
  amount = sub64 sf.milli_satoshi (min sf.milli_satoshi 1000000);
  short_channel_id = sf.erring_channel;
  direction = sf.erring_direction;
}

module _ {D L : Type 0} (b : Badger D) (json : Json) (client : Client L) where
  unfoldable pub generate_preimage_hash_pair : Node D L → Result String × Node D L
  generate_preimage_hash_pair n =
      let drawn = client.random_preimage n.world in
      let hash = client.sha256 drawn.0 in
      let set = b.set_entry hash drawn.0 n.db in
      let n' : Node D L = record n { world = drawn.1; db = set.1 } in
      elim set.0 [ err e ↦ (err e, n') | ok _ ↦ (ok hash, n') ]

  -- the errors of the database are logged
  unfoldable pub manage_timeout : String → Node D L → Result String × Node D L
  manage_timeout hash n =
      let removed = b.remove hash n.db in
      let set = b.set_entry (timeout_key hash) "timeout" removed.1 in
      (err send_pay_timeout, record n { db = set.1 })

  -- where WaitSendPay has returned an error
  unfoldable pub handle_pay_error :
      List LightningHop → String → PayError → Node D L → Result String × Node D L
  unfolding manage_timeout last_but_one
  handle_pay_error final hash e n =
      if str_eq e.message timeout_text
      then manage_timeout hash n
      else if str_eq e.message fee_text
      then elim e.erring_node [
        | none ↦ (err (library e.message), n)
        | some erring ↦ elim (last_but_one final) [
          | none ↦ (err panic, n)
          | some last ↦
              if str_eq last.id erring
              then (err wire_fee_insufficient, n)
              else (err (library e.message), n)
        ]
      ]
      else (err (library e.message), n)

  unfoldable pub send_pay : Route → String → Node D L → Result String × Node D L
  unfolding handle_pay_error
  send_pay route hash n =
      let final = to_lightning_route route in
      let sent = client.send_pay_lite final hash n.world in
      elim sent.0 [
        | err e ↦ (err first_peer_not_ready, record n { world = sent.1 })
        | ok _ ↦
            let waited = client.wait_send_pay hash sendpay_timeout sent.1 in
            let n' : Node D L = record n { world = waited.1 } in
            elim waited.0 [
              | paid preimage ↦ (ok preimage, n')
              | unpaid e ↦ handle_pay_error final hash e n'
            ]
      ]

  abbrev pub delete_key : String → Node D L → Result ℕ × Node D L
  delete_key key n = ((b.remove key n.db).0, record n { db = (b.remove key n.db).1 })

  unfoldable pub delete_if_ours : String → Node D L → Result ℕ × Node D L
  delete_if_ours hash n = elim (b.read hash n.db) [
    | ok _ ↦ delete_key hash n
    | err e ↦
        if is_not_found e
        then elim (b.read (timeout_key hash) n.db) [
          | ok _ ↦ delete_key (timeout_key hash) n
          | err e' ↦ if is_not_found e' then (err e', n) else delete_key (timeout_key hash) n
        ]
        else delete_key hash n
  ]

  abbrev pub save : String → Saved → Node D L → Node D L
  save key value n = record n { db = (save_to_db b json n.save_stats key value n.db).1 }

  -- what OnPaymentFailure does with a payment that is ours
  unfoldable pub report_failure : SendPayFailure → Node D L → Node D L
  report_failure sf n =
      let saved = save (failure_key sf.payment_hash) (failure sf) n in
      record saved { updates = saved.updates ++ update_of sf ∷ [] }

  unfoldable pub on_payment_failure : SendPayFailure → Node D L → Node D L
  unfolding delete_if_ours report_failure
  on_payment_failure sf n =
      let deleted = delete_if_ours sf.payment_hash n in
      elim deleted.0 [ err e ↦ deleted.1 | ok _ ↦ report_failure sf deleted.1 ]

  unfoldable pub on_payment_success : SendPaySuccess → Node D L → Node D L
  unfolding delete_if_ours
  on_payment_success ss n =
      let deleted = delete_if_ours ss.payment_hash n in
      elim deleted.0 [
        | err e ↦ deleted.1
        | ok _ ↦ save (success_key ss.payment_hash) (success ss) deleted.1
      ]

  -- OnHtlcAccepted of cmd/circular, with GetFromDb
  unfoldable pub on_htlc_accepted : String → Node D L → HtlcResponse
  on_htlc_accepted hash n = elim (b.read hash n.db) [
    | err e ↦ continue
    | ok preimage ↦ resolve preimage
  ]

abbrev pub channel_key : String → ℕ → String
channel_key scid direction = str_append scid (str_append "/" (itoa direction))

-- a round of the loop of UpdateLiquidity
unfoldable pub apply_update : ℕ → LiquidityUpdate → Graph → Graph
apply_update now u g =
    update_channel (channel_key u.short_channel_id u.direction)
      (channel_key u.short_channel_id (bit_xor u.direction 1)) u.amount now g

-- the loop of UpdateLiquidity takes the oldest update; with none it waits
unfoldable pub update_liquidity : {D L : Type 0} → ℕ → Node D L → Node D L
unfolding apply_update
update_liquidity now n = elim n.updates [
  | [] ↦ n
  | u ∷ updates ↦ record n { updates = updates; graph = apply_update now u n.graph }
]
