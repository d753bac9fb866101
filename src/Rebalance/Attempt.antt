-- ===== src/Rebalance/Attempt.antt =====
-- rebalance/route.go, and runAttempt of rebalance/rebalance.go: one attempt to pay along a route of at most
-- `max_hops` hops. `none` says that the search ran out of fuel.
use Prim.Native.String.{◌++◌ as str_append}
use circular.Prelude.{ℕ, ◌/◌, String, true, Option, none, some, [], ◌∷◌, ltb, if◌then◌else◌}
use circular.Errors.{
  Error, Result, ok, err, ◌>>=◌, route_too_expensive, send_pay_timeout, wire_fee_insufficient,
  first_peer_not_ready, temporary_failure, circular_stopped,
}
use circular.Graph.Route.{Route, prepend, append, route_fee_ppm, PrettyRoute, new_pretty_route}
use circular.Graph.Network.{Graph, get_alias}
use circular.Graph.Pathfinder as Pathfinder
use circular.Singleton.{Node}
use circular.Rebalance.Params.{Rebalance, validate_liquidity_parameters}

-- types.Result of a rebalance that succeeds; the message, which is printed, is left out
pub record Success : Type 0 where
  pub amount : ℕ
  pub out : String
  pub in_ : String
  pub fee : ℕ
  pub ppm : ℕ
  pub route : PrettyRoute

-- what getRoute does with the hops that the search has found
unfoldable pub close_route : Rebalance → Route → Result Route
close_route r route = do
  longer ← prepend r.out_channel route
  let circle = append r.in_channel longer
  fee_ppm ← route_fee_ppm circle
  if ltb r.max_ppm fee_ppm then err (route_too_expensive fee_ppm r.max_ppm) else ok circle

unfoldable pub get_route : Rebalance → String → Graph → ℕ → Option (Result Route)
unfolding close_route
get_route r self g max_hops =
    let found =
      Pathfinder.get_route g ((self, true) ∷ []) r.out_channel.destination r.in_channel.source
        r.amount max_hops in
    elim found [ none ↦ none | some result ↦ some (result >>= close_route r) ]

-- the errors of SendPay that tryRoute passes on; any other is a temporary failure
abbrev pub pay_error : Error → Error
pay_error send_pay_timeout = send_pay_timeout
pay_error wire_fee_insufficient = wire_fee_insufficient
pay_error first_peer_not_ready = first_peer_not_ready
pay_error _ = temporary_failure

module _ {W : Type 0} (node : Node W) (r : Rebalance) where
  -- what follows the choice of the route: its report, and the payment
  unfoldable pub pay_route : Route → String → W → Result PrettyRoute × W
  pay_route route hash w = elim (new_pretty_route (get_alias (node.get_graph w)) route hash) [
    | err e ↦ (err e, w)
    | ok pretty ↦
        let saved = (node.save_to_db (str_append "r_" hash) pretty w).1 in
        let paid = node.send_pay route hash (node.send_rebalance_attempt pretty saved) in
        elim paid.0 [ err e ↦ (err (pay_error e), paid.1) | ok _ ↦ (ok pretty, paid.1) ]
  ]

  unfoldable pub try_route : ℕ → W → Option (Result PrettyRoute × W)
  unfolding get_route pay_route
  try_route max_hops w =
      let pair = node.generate_preimage_hash_pair w in
      elim pair.0 [
        | err e ↦ some (err e, pair.1)
        | ok hash ↦ elim (get_route r (node.get_id pair.1) (node.get_graph pair.1) max_hops) [
          | none ↦ none
          | some (err e) ↦ some (err e, pair.1)
          | some (ok route) ↦ some (pay_route route hash pair.1)
        ]
      ]

  abbrev pub success_of : PrettyRoute → Success
  success_of pretty = record {
    amount = r.amount / 1000;
    out = r.out_channel.destination;
    in_ = r.in_channel.source;
    fee = pretty.fee;
    ppm = pretty.fee_ppm;
    route = pretty;
  }

  unfoldable pub run_attempt : ℕ → W → Option (Result Success × W)
  unfolding try_route
  run_attempt max_hops w =
      if node.stopped w
      then some (err circular_stopped, w)
      else elim (validate_liquidity_parameters r (node.get_peers w)) [
        | err e ↦ some (err e, w)
        | ok _ ↦ elim (try_route max_hops w) [
          | none ↦ none
          | some (result, w') ↦ some ((do pretty ← result; ok (success_of pretty)), w')
        ]
      ]
