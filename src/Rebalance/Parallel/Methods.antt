-- ===== src/Rebalance/Parallel/Methods.antt =====
-- pull.go and push.go of rebalance/parallel: the two ways to choose channels, each an implementation of the
-- interface RebalanceMethods. What is done with a float64 is a parameter.
use circular.Prelude.{
  ℕ, ◌^◌, String, Bool, false, Option, none, some, List, [], ◌∷◌, str_eq, if◌then◌else◌, ◌||◌, not,
  ltb, sub64, mul64,
}
use circular.Errors.{
  Result, ok, err, ◌>>=◌, panic, channel_depleted, channel_filled, channel_not_in_normal_state,
  outgoing_peer_disconnected, incoming_peer_disconnected, deplete_up_to_percent_invalid,
}
use circular.Lightning.{PeerChannel}
use circular.Util.{min, get_direction}
use circular.Graph.Channel.{Channel, compute_fee_ppm}
use circular.Graph.Route.{PrettyRoute, PrettyRouteHop}
use circular.Node.Peers.{
  is_peer_connected, get_outgoing_channel_from_scid, get_incoming_channel_from_scid,
}
use circular.Singleton.{Node}
use circular.Rebalance.Params.{Rebalance, new_rebalance, normal}
use circular.Rebalance.Attempt.{Success}
use circular.Rebalance.Parallel.{Parallel, validate_generic_parameters, or_else}

-- the numbers of type float64, and what the code does with one: uint64(float64(x) * p), and the comparisons
pub record Floats (F : Type 0) : Type 0 where
  pub scale : ℕ → F → ℕ
  pub is_at_most_0 : F → Bool
  pub is_below_0 : F → Bool
  pub is_above_1 : F → Bool
  -- 0.2 and 0.8
  pub deplete_percent : F
  pub fill_percent : F

-- RebalanceMethods; `fire` is the rebalance that Fire runs
pub record Methods (W : Type 0) : Type 0 where
  pub is_good_candidate : PeerChannel → W → Result Bool
  pub can_use_channel : PeerChannel → W → Result ℕ
  pub fire : Channel → Parallel → Channel → Rebalance
  -- the channel that goes to the front of the queue
  pub enqueue_candidate : Success → W → Result (Option Channel)
  pub get_candidate_direction : String → W → String
  -- the node whose alias AddSuccess reports
  pub success_node : Success → String

-- Hops[0] and Hops[len(Hops)-1]
abbrev pub first_scid : PrettyRoute → Result String
first_scid r = elim r.hops [ [] ↦ err panic | hop ∷ hops ↦ ok hop.short_channel_id ]

abbrev pub last_of : PrettyRouteHop → List PrettyRouteHop → String
last_of hop [] = hop.short_channel_id
last_of hop (next ∷ hops) = last_of next hops

abbrev pub last_scid : PrettyRoute → Result String
last_scid r = elim r.hops [ [] ↦ err panic | hop ∷ hops ↦ ok (last_of hop hops) ]

-- a channel that is not found is logged
abbrev pub found_or_none : Result Channel → Option Channel
found_or_none (err e) = none
found_or_none (ok c) = some c

-- the parameters of circular-pull and of circular-push; `amount` is depleteuptoamount or filluptoamount
pub record Limits (F : Type 0) : Type 0 where
  pub scid : String
  pub nodes : Option (List String)
  pub out_ppm : ℕ
  pub up_to_percent : F
  pub up_to_amount : ℕ

module _ {F : Type 0} (floats : Floats F) where
  -- setDefaults, after the list of nodes has put maxoutppm to 2 ^ 63 or minoutppm to 0
  unfoldable pub pull_defaults : Limits F → Limits F
  pull_defaults l = record l {
    up_to_percent =
        if floats.is_at_most_0 l.up_to_percent then floats.deplete_percent else l.up_to_percent;
    up_to_amount = mul64 (or_else l.up_to_amount 1000000) 1000;
    out_ppm = or_else (elim l.nodes [ none ↦ l.out_ppm | some ids ↦ 2 ^ 63 ]) 50;
  }

  unfoldable pub push_defaults : Limits F → Limits F
  push_defaults l = record l {
    up_to_percent =
        if floats.is_at_most_0 l.up_to_percent then floats.fill_percent else l.up_to_percent;
    up_to_amount = mul64 (or_else l.up_to_amount 10000000) 1000;
    out_ppm = or_else (elim l.nodes [ none ↦ l.out_ppm | some ids ↦ 0 ]) 50;
  }

  -- the two are the same
  unfoldable pub validate_parameters : Limits F → Parallel → Result ℕ
  validate_parameters l s = do
    _ ← validate_generic_parameters s
    if floats.is_above_1 l.up_to_percent || floats.is_below_0 l.up_to_percent
        then err deplete_up_to_percent_invalid
        else ok 0

  module _ {W : Type 0} (node : Node W) (l : Limits F) (s : Parallel) where
    outgoing : String → W → Result Channel
    outgoing scid w =
        get_outgoing_channel_from_scid (node.get_id w) (node.get_peers w) (node.get_graph w) scid

    incoming : String → W → Result Channel
    incoming scid w =
        get_incoming_channel_from_scid (node.get_id w) (node.get_peers w) (node.get_graph w) scid

    unfoldable pub pull_is_good_candidate : PeerChannel → W → Result Bool
    unfolding outgoing
    pull_is_good_candidate channel w = elim (outgoing channel.short_channel_id w) [
      | err e ↦ ok false
      | ok c ↦ (do ppm ← compute_fee_ppm c s.split_amount; ok (ltb ppm l.out_ppm))
    ]

    unfoldable pub pull_can_use_channel : PeerChannel → W → Result ℕ
    pull_can_use_channel channel w =
        if ltb channel.milli_satoshi_to_us
          (min l.up_to_amount (floats.scale channel.milli_satoshi_total l.up_to_percent))
        then err channel_depleted
        else if not (str_eq channel.state normal)
        then err channel_not_in_normal_state
        else if not (is_peer_connected (node.get_peers w) channel)
        then err outgoing_peer_disconnected
        else ok 0

    unfoldable pub push_is_good_candidate : PeerChannel → W → Result Bool
    unfolding outgoing incoming
    push_is_good_candidate channel w = elim (incoming channel.short_channel_id w) [
      | err e ↦ ok false
      | ok c ↦ (do
        in_ppm ← compute_fee_ppm c s.split_amount
        if ltb s.max_ppm in_ppm then ok false else elim (outgoing channel.short_channel_id w) [
          | err e ↦ ok false
          | ok d ↦ (do ppm ← compute_fee_ppm d s.split_amount; ok (ltb l.out_ppm ppm))
        ])
    ]

    unfoldable pub push_can_use_channel : PeerChannel → W → Result ℕ
    push_can_use_channel channel w =
        if ltb (sub64 channel.milli_satoshi_total channel.milli_satoshi_to_us)
          (min l.up_to_amount (floats.scale channel.milli_satoshi_total l.up_to_percent))
        then err channel_filled
        else if not (str_eq channel.state normal)
        then err channel_not_in_normal_state
        else if not (is_peer_connected (node.get_peers w) channel)
        then err incoming_peer_disconnected
        else ok 0

    unfoldable pub pull_enqueue_candidate : Success → W → Result (Option Channel)
    unfolding outgoing
    pull_enqueue_candidate done w = do
      scid ← first_scid done.route
      ok (found_or_none (outgoing scid w))

    unfoldable pub push_enqueue_candidate : Success → W → Result (Option Channel)
    unfolding incoming
    push_enqueue_candidate done w = do
      scid ← last_scid done.route
      ok (found_or_none (incoming scid w))

    abbrev pub pull_fire : Channel → Parallel → Channel → Rebalance
    pull_fire target t candidate =
        new_rebalance candidate target t.split_amount t.max_ppm t.attempts t.max_hops

    abbrev pub push_fire : Channel → Parallel → Channel → Rebalance
    push_fire target t candidate =
        new_rebalance target candidate t.split_amount t.max_ppm t.attempts t.max_hops

    unfoldable pub pull_methods : Methods W
    unfolding pull_is_good_candidate pull_can_use_channel pull_enqueue_candidate
    pull_methods = record {
      is_good_candidate = pull_is_good_candidate;
      can_use_channel = pull_can_use_channel;
      fire = pull_fire;
      enqueue_candidate = pull_enqueue_candidate;
      get_candidate_direction = λ id w. get_direction (node.get_id w) id;
      success_node = λ done. done.out;
    }

    unfoldable pub push_methods : Methods W
    unfolding push_is_good_candidate push_can_use_channel push_enqueue_candidate
    push_methods = record {
      is_good_candidate = push_is_good_candidate;
      can_use_channel = push_can_use_channel;
      fire = push_fire;
      enqueue_candidate = push_enqueue_candidate;
      get_candidate_direction = λ id w. get_direction id (node.get_id w);
      success_node = λ done. done.in_;
    }
