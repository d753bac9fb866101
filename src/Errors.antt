-- ===== src/Errors.antt =====
-- util/error.go: the errors as values, and a result in Go's style. An error of a library keeps its text.
use circular.Prelude.{ℕ, String, ◌≡◌, refl, ◌⊎◌, inl, inr}

pub data Error : Type 0 where
  send_pay_timeout temporary_failure wire_fee_insufficient : Error
  no_required_parameter self_node no_peers same_incoming_and_outgoing_node : Error
  no_peer_channel no_such_node no_peer first_peer_not_ready circular_stopped : Error
  no_graph_to_load no_route : Error
  amount_less_than_split_amount amount_not_multiple_of_split_amount : Error
  deplete_up_to_percent_invalid : Error
  no_channel no_candidates channel_depleted channel_filled : Error
  incoming_channel_depleted outgoing_channel_depleted : Error
  no_outgoing_channel no_incoming_channel channel_not_in_normal_state : Error
  outgoing_channel_not_in_normal_state incoming_channel_not_in_normal_state : Error
  incoming_peer_disconnected outgoing_peer_disconnected : Error
  -- ErrRouteTooExpensive: the fee of the route and the limit
  route_too_expensive : ℕ → ℕ → Error
  -- badger.ErrKeyNotFound
  key_not_found : Error
  -- an error that a library reports
  library : String → Error
  -- a run-time panic: an index out of range, a nil map entry that is dereferenced
  panic : Error

pub data Result {ℓ} (T : Type ℓ) : Type ℓ where
  err : Error → Result T
  ok : T → Result T

infixl 5 ◌>>=◌
abbrev pub ◌>>=◌ {ℓ κ} : {T : Type ℓ} {S : Type κ} → Result T → (T → Result S) → Result S
err problem >>= next = err problem
ok value >>= next = next value

module _ {ℓ} {T : Type ℓ} where
  pub Result-cases : (r : Result T) → ((e : Error) × (r ≡ err e)) ⊎ ((value : T) × (r ≡ ok value))
  Result-cases (err e) = inl (e, refl)
  Result-cases (ok value) = inr (value, refl)

  -- what a `do` block that succeeds has computed on the way
  pub >>=-eq-ok {κ} :
      {S : Type κ} (r : Result T) (next : T → Result S) {result : S}
      → (r >>= next) ≡ ok result
      → (value : T) × (r ≡ ok value) × (next value ≡ ok result)
  >>=-eq-ok (err e) next q = absurd (cc q)
  >>=-eq-ok (ok value) next q = (value, refl, q)
