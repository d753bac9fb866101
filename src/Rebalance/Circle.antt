-- ===== src/Rebalance/Circle.antt =====
-- getRoute of rebalance/route.go: the route that it returns is a circle through the two channels.
use circular.Prelude.{
  ℕ, ◌+◌, ◌-◌, ◌<◌, ◌≤◌, ◌≡◌, refl, sym, subst, ap, ◌∙◌, String, true, some, List, [], ◌∷◌, ◌++◌,
  inl, inr, length, arith, ltb, sub64, sub64_lem, i64_half, Bool-cases, List-cases, ltb→ge,
}
use circular.Errors.{Result, ok, err, >>=-eq-ok, ◌>>=◌, no_such_node, no_route}
use circular.Graph.Channel.{Channel}
use circular.Graph.Route.{
  RouteHop, Route, new_route, first_hop, prepend, append, route_fee_ppm, initial_delay,
}
use circular.Graph.Route.Prices.{IsPriced, append-IsPriced, channels, channels-append-prepend}
use circular.Graph.Network.{Graph}
use circular.Graph.Pathfinder as Pathfinder
use circular.Graph.Pathfinder.Trace.{IsRoute}
use circular.Graph.Pathfinder.Expand.{Assumptions}
use circular.Graph.Pathfinder.Correct.{dijkstra-Returned}
use circular.Rebalance.Params.{Rebalance}
use circular.Rebalance.Attempt.{close_route, get_route}

-- The route goes through the outgoing channel, then through hops that the search has found, then through
-- the incoming channel; its amounts fit each other, and its fee is within the limit.
pub record IsCircle (r : Rebalance) (self : String) (g : Graph) (max_hops : ℕ) (route : Route)
    : Type 0 where
  pub inner : List RouteHop
  pub leads :
      IsRoute g ((self, true) ∷ []) r.in_channel.source r.amount r.out_channel.destination inner
  pub short : length inner + 2 ≤ max_hops
  pub circle : channels route.hops ≡ r.out_channel ∷ channels inner ++ r.in_channel ∷ []
  pub amount : route.amount ≡ r.amount
  pub priced : IsPriced r.amount initial_delay route.hops
  pub ppm : ℕ
  pub fee : route_fee_ppm route ≡ ok ppm
  pub cheap : ppm ≤ r.max_ppm

abbrev pub IsClosed : Rebalance → String → Graph → ℕ → Result Route → Type 0
IsClosed r self g max_hops (ok route) = IsCircle r self g max_hops route
IsClosed r self g max_hops (err e) = Unit

empty-first_hop :
    (c : Channel) (route : Route) (longer : Route)
    → route.hops ≡ []
    → prepend c route ≡ ok longer
    → ⊥
unfolding prepend
empty-first_hop c route longer e q = absurd (cc (rw (e, first_hop) at q))

-- what a route that getRoute returns is made of
close_route-ok :
    (r : Rebalance) (route circle : Route)
    → close_route r route ≡ ok circle
    → (longer : Route) × (ppm : ℕ) × (prepend r.out_channel route ≡ ok longer)
      × (circle ≡ append r.in_channel longer)
      × (route_fee_ppm circle ≡ ok ppm)
      × (ppm ≤ r.max_ppm)
unfolding close_route
close_route-ok r route circle e =
    let (longer, p, q) = >>=-eq-ok (prepend r.out_channel route) _ e in
    let (ppm, f, s) = >>=-eq-ok (route_fee_ppm (append r.in_channel longer)) _ q in
    elim (Bool-cases (ltb r.max_ppm ppm)) [
      | inl t ↦ absurd (cc (rw t at s))
      | inr t ↦
          let same : append r.in_channel longer ≡ circle =
            ap (λ x. elim x [ ok y ↦ y | err z ↦ circle ]) (rw t at s) in
          (longer, ppm, p, sym same, ap route_fee_ppm (sym same) ∙ f, ltb→ge _ _ t)
    ]

module _ (ends : String → String × String) (r : Rebalance) (self : String) (g : Graph)
    (max_hops : ℕ) (a : Assumptions ends g r.amount) (least : 2 ≤ max_hops)
    (few : max_hops < i64_half) where
  abbrev src : String
  src = r.out_channel.destination

  abbrev dst : String
  dst = r.in_channel.source

  room : sub64 max_hops 2 ≡ max_hops - 2
  room = sub64_lem max_hops 2 least (omega arith)

  abbrev base : List RouteHop → Route
  base hops = record { destination = dst; source = src; amount = r.amount; hops = hops }

  base_lem : (hops : List RouteHop) → new_route src dst r.amount hops ≡ base hops
  unfolding new_route
  base_lem hops = refl

  module _ (hops : List RouteHop) (leads : IsRoute g ((self, true) ∷ []) dst r.amount src hops)
      (short : length hops ≤ sub64 max_hops 2) (circle : Route)
      (e : close_route r (base hops) ≡ ok circle) where
    circle_from :
        (longer : Route)
        → circle ≡ append r.in_channel longer
        → channels (append r.in_channel longer).hops
          ≡ r.out_channel ∷ channels hops ++ r.in_channel ∷ []
        → (append r.in_channel longer).amount ≡ r.amount
        → longer.amount ≡ r.amount
        → (ppm : ℕ) × (route_fee_ppm circle ≡ ok ppm) × (ppm ≤ r.max_ppm)
        → IsCircle r self g max_hops circle
    circle_from longer q cs am am' (ppm, f, c) = record {
      inner = hops;
      leads = leads;
      short = omega (arith, room);
      circle = ap (λ (t : Route). channels t.hops) q ∙ cs;
      amount = ap (λ (t : Route). t.amount) q ∙ am;
      priced =
          subst (λ t. IsPriced r.amount initial_delay t.hops) (sym q)
            (subst (λ x. IsPriced x initial_delay (append r.in_channel longer).hops) am'
              (append-IsPriced r.in_channel longer));
      ppm = ppm;
      fee = f;
      cheap = c;
    }

    closed : IsCircle r self g max_hops circle
    closed =
        let (longer, ppm, p, q, f, c) = close_route-ok r (base hops) circle e in
        elim (List-cases hops) [
          | inl n ↦ absurd (empty-first_hop r.out_channel (base hops) longer n p)
          | inr (h, rest, n) ↦
              let (other, p', cs, am, s, d) =
                channels-append-prepend r.out_channel r.in_channel (base hops) h rest n in
              let same : other ≡ longer =
                ap (λ x. elim x [ ok y ↦ y | err z ↦ longer ]) (sym p' ∙ p) in
              circle_from longer q
                (subst
                  (λ t.
                    channels (append r.in_channel t).hops
                    ≡ r.out_channel ∷ channels hops ++ r.in_channel ∷ [])
                  same cs)
                (subst (λ t. (append r.in_channel t).amount ≡ r.amount) same am)
                (unfold append in subst (λ t. (append r.in_channel t).amount ≡ r.amount) same am)
                (ppm, f, c)
        ]

  -- what closing makes of the hops that the search has found
  close-IsClosed :
      (hops : List RouteHop)
      → IsRoute g ((self, true) ∷ []) dst r.amount src hops
      → length hops ≤ sub64 max_hops 2
      → (result : Result Route) → close_route r (base hops) ≡ result
      → IsClosed r self g max_hops result
  close-IsClosed hops leads short (ok circle) e = closed hops leads short circle e
  close-IsClosed hops leads short (err problem) e = tt

  get_route_lem :
      (found : Result (List RouteHop))
      → Pathfinder.dijkstra g ((self, true) ∷ []) src dst r.amount (sub64 max_hops 2) ≡ some found
      → get_route r self g max_hops ≡ some (found >>= λ hops. close_route r (base hops))
  unfolding get_route Pathfinder.get_route
  get_route_lem (ok hops) e = rw (e, get_route, Pathfinder.get_route) (rw (base_lem hops))
  get_route_lem (err problem) e = rw (e, get_route, Pathfinder.get_route)

  -- On a well-formed graph whose fee fields fit 32 bits, for an amount below 2 ^ 41 - 2 ^ 31 msat
  -- and from 2 to 2 ^ 63 - 1 hops, getRoute returns: an error, or a route through the outgoing
  -- channel, then through hops that lead from its end to the start of the incoming channel and
  -- avoid the node itself, then through the incoming channel, whose amounts fit each other and
  -- whose fee in ppm is within the limit.
  pub get_route-IsClosed :
      (result : Result Route) × (get_route r self g max_hops ≡ some result)
      × IsClosed r self g max_hops result
  get_route-IsClosed =
      let (found, e, cases) =
        dijkstra-Returned ends g ((self, true) ∷ []) dst r.amount (sub64 max_hops 2) a
          (omega (arith, room)) src in
      elim cases [
        | inl missing ↦
            (err no_such_node, get_route_lem (err no_such_node) (e ∙ ap some missing), tt)
        | inr (inl none_found) ↦
            (err no_route, get_route_lem (err no_route) (e ∙ ap some none_found), tt)
        | inr (inr (hops, q, leads, short)) ↦ (
          close_route r (base hops),
          get_route_lem (ok hops) (e ∙ ap some q),
          close-IsClosed hops leads short (close_route r (base hops)) refl,
        )
      ]
