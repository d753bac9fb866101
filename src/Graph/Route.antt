-- ===== src/Graph/Route.antt =====
-- graph/route.go and the data of graph/prettyRoute.go: a route, its fee, and its extension by the first
-- and the last channel. A method that writes through its receiver returns the new route; reading
-- `r.Hops[0]` of an empty route, and dividing by an amount of zero, is the panic that Go makes of it.
-- The alias of a node is the argument `alias_of`, which the callers take from the graph.
-- `String` and `Simple` of a pretty route print it, and are not modelled.
pub mod Prices
pub mod Pretty
use circular.Prelude.{
  ℕ, ◌+◌, ◌/◌, String, List, [], ◌∷◌, ◌++◌, map, ◌==◌, if◌then◌else◌, add64, sub64, mul64,
}
use circular.Lightning.{LightningHop}
use circular.Errors.{Result, ok, err, panic, ◌>>=◌}
use circular.Graph.Channel.{Channel, compute_fee, channel_direction}

abbrev pub initial_delay : ℕ
initial_delay = 144

pub record RouteHop : Type 0 where
  pub channel : Channel
  pub milli_satoshi : ℕ
  pub delay : ℕ

pub record Route : Type 0 where
  pub destination : String
  pub source : String
  pub amount : ℕ
  pub hops : List RouteHop

unfoldable pub new_route : String → String → ℕ → List RouteHop → Route
new_route src dst amount hops = record {
  destination = dst;
  source = src;
  amount = amount;
  hops = hops;
}

-- r.Hops[0]
abbrev pub first_hop : List RouteHop → Result RouteHop
first_hop [] = err panic
first_hop (h ∷ hops) = ok h

-- r.Hops[1:]
abbrev pub later_hops : List RouteHop → List RouteHop
later_hops [] = []
later_hops (h ∷ hops) = hops

unfoldable pub route_fee : Route → Result ℕ
route_fee r = do first ← first_hop r.hops; ok (sub64 first.milli_satoshi r.amount)

unfoldable pub route_fee_ppm : Route → Result ℕ
unfolding route_fee
route_fee_ppm r = do
  fee ← route_fee r
  if r.amount == 0 then err panic else ok (mul64 fee 1000000 / r.amount)

unfoldable pub prepend : Channel → Route → Result Route
prepend channel r = do
  first ← first_hop r.hops
  let hop : RouteHop = record {
    channel = channel;
    milli_satoshi = first.milli_satoshi;
    delay = first.delay;
  }
  ok (record r { hops = hop ∷ r.hops })

-- the body of the loop: hop `i` from hop `i + 1`
abbrev pub priced_before : RouteHop → RouteHop → RouteHop
priced_before hop next = record hop {
  milli_satoshi = add64 next.milli_satoshi (compute_fee next.channel next.milli_satoshi);
  delay = add64 next.delay next.channel.delay;
}

abbrev pub before : RouteHop → List RouteHop → List RouteHop
before hop [] = hop ∷ []
before hop (next ∷ rest) = priced_before hop next ∷ next ∷ rest

-- The loop runs from the last hop but one down to the first, and each round reads the hop after its own
-- as the round before left it.
unfoldable pub recompute_fee_and_delay : List RouteHop → List RouteHop
recompute_fee_and_delay [] = []
recompute_fee_and_delay (hop ∷ hops) = before hop (recompute_fee_and_delay hops)

unfoldable pub append : Channel → Route → Route
unfolding recompute_fee_and_delay
append channel r =
    let hop : RouteHop = record {
      channel = channel;
      milli_satoshi = r.amount;
      delay = initial_delay;
    } in
    record r { hops = recompute_fee_and_delay (r.hops ++ hop ∷ []) }

unfoldable pub to_lightning_hop : RouteHop → LightningHop
unfolding channel_direction
to_lightning_hop hop = record {
  id = hop.channel.destination;
  short_channel_id = hop.channel.short_channel_id;
  milli_satoshi = hop.milli_satoshi;
  delay = hop.delay;
  direction = channel_direction hop.channel;
}

unfoldable pub to_lightning_route : Route → List LightningHop
unfolding to_lightning_hop
to_lightning_route r = map to_lightning_hop r.hops

pub record PrettyRouteHop : Type 0 where
  pub id : String
  pub alias : String
  pub short_channel_id : String
  pub milli_satoshi : ℕ
  pub delay : ℕ
  pub fee : ℕ
  pub fee_ppm : ℕ

pub record PrettyRoute : Type 0 where
  pub payment_hash : String
  pub source_id : String
  pub destination_id : String
  pub source_alias : String
  pub destination_alias : String
  pub amount : ℕ
  pub fee : ℕ
  pub fee_ppm : ℕ
  pub hops : List PrettyRouteHop

module _ (alias_of : String → String) where
  unfoldable pub pretty_hop : RouteHop → ℕ → ℕ → PrettyRouteHop
  pretty_hop hop fee fee_ppm = record {
    id = hop.channel.source;
    alias = alias_of hop.channel.source;
    short_channel_id = hop.channel.short_channel_id;
    milli_satoshi = hop.milli_satoshi;
    delay = hop.delay;
    fee = fee;
    fee_ppm = fee_ppm;
  }

  -- the loop over the hops after the first; the first argument is the hop before
  unfoldable pub pretty_hops : RouteHop → List RouteHop → Result (List PrettyRouteHop)
  pretty_hops previous [] = ok []
  pretty_hops previous (hop ∷ hops) =
      let fee = sub64 previous.milli_satoshi hop.milli_satoshi in
      let rest = pretty_hops hop hops in
      if hop.milli_satoshi == 0
      then err panic
      else (do done ← rest; ok (pretty_hop hop fee (mul64 fee 1000000 / hop.milli_satoshi) ∷ done))

  unfoldable pub new_pretty_route : Route → String → Result PrettyRoute
  unfolding pretty_hop pretty_hops route_fee route_fee_ppm
  new_pretty_route r payment_hash = do
    first ← first_hop r.hops
    rest ← pretty_hops first (later_hops r.hops)
    fee ← route_fee r
    fee_ppm ← route_fee_ppm r
    ok (record {
      payment_hash = payment_hash;
      source_id = r.source;
      destination_id = r.destination;
      source_alias = alias_of r.source;
      destination_alias = alias_of r.destination;
      amount = r.amount / 1000;
      fee = fee;
      fee_ppm = fee_ppm;
      hops = pretty_hop first 0 0 ∷ rest;
    })
