-- ===== src/Graph/Route/Pretty.antt =====
-- What a pretty route reports of the route it is made from.
use circular.Prelude.{
  ℕ, ◌+◌, ◌%◌, ◌<◌, ◌≡◌, ap, ◌∙◌, map, String, List, [], ◌∷◌, arith, All, sub64, u64_mod, inl, inr,
  ◌==◌, Bool-cases,
}
use circular.Errors.{ok, >>=-eq-ok}
use circular.Graph.Route.{
  RouteHop, Route, PrettyRouteHop, PrettyRoute, first_hop, pretty_hop, pretty_hops,
  new_pretty_route,
}

abbrev pub sum_fees : List PrettyRouteHop → ℕ
sum_fees [] = 0
sum_fees (h ∷ hops) = h.fee + sum_fees hops

abbrev pub last_amount : RouteHop → List RouteHop → ℕ
last_amount h [] = h.milli_satoshi
last_amount h (n ∷ hops) = last_amount n hops

abbrev pub IsWord : RouteHop → Type 0
IsWord h = h.milli_satoshi < u64_mod

last-IsWord :
    (h : RouteHop) (hops : List RouteHop) → All IsWord (h ∷ hops) → last_amount h hops < u64_mod
last-IsWord h [] w = w.0
last-IsWord h (n ∷ hops) w = last-IsWord n hops w.1

abbrev pub without_fee : PrettyRouteHop → PrettyRouteHop
without_fee h = record h { fee = 0; fee_ppm = 0 }

module _ (alias_of : String → String) where
  -- a hop of the route, as it is listed but for its fee
  abbrev pub unpriced : RouteHop → PrettyRouteHop
  unpriced h = record {
    id = h.channel.source;
    alias = alias_of h.channel.source;
    short_channel_id = h.channel.short_channel_id;
    milli_satoshi = h.milli_satoshi;
    delay = h.delay;
    fee = 0;
    fee_ppm = 0;
  }

  -- what a round of the loop has done, if it did not panic
  pretty_round :
      (p h : RouteHop) (hops : List RouteHop) (l : List PrettyRouteHop)
      → pretty_hops alias_of p (h ∷ hops) ≡ ok l
      → (done : List PrettyRouteHop) × (pretty_hops alias_of h hops ≡ ok done)
        × (sum_fees l ≡ sub64 p.milli_satoshi h.milli_satoshi + sum_fees done)
        × (map without_fee l ≡ unpriced h ∷ map without_fee done)
  unfolding pretty_hops pretty_hop
  pretty_round p h hops l e = elim (Bool-cases (h.milli_satoshi == 0)) [
    | inl z ↦ absurd (cc (rw z at e))
    | inr z ↦
        let (done, f, g) = >>=-eq-ok (pretty_hops alias_of h hops) _ (rw z at e) in
        (done, f, ground (arith, g), ground (arith, g))
  ]

  pretty_hops-sum :
      (p : RouteHop) (hops : List RouteHop) (l : List PrettyRouteHop)
      → All IsWord (p ∷ hops)
      → pretty_hops alias_of p hops ≡ ok l
      → (sum_fees l % u64_mod ≡ sub64 p.milli_satoshi (last_amount p hops))
        × (map without_fee l ≡ map unpriced hops)
  unfolding pretty_hops sub64
  pretty_hops-sum p [] l w e = ground arith
  pretty_hops-sum p (h ∷ hops) l w e =
      let (done, f, s, n) = pretty_round p h hops l e in
      let ih = pretty_hops-sum h hops done w.1 f in
      let fits = last-IsWord h hops w.1 in
      (omega (arith, ih, w.0, w.1.0), n ∙ ap (λ x. unpriced h ∷ x) (ih.1))

  -- For a route whose last hop carries its amount, of which a pretty route is made, the fees of the
  -- hops that it lists add up, as 64-bit words, to the fee that it states, and it lists the hops of
  -- the route in their order, each with its source, the alias of that, its short channel id, its
  -- amount and its delay.
  pub pretty_fees :
      (r : Route) (payment_hash : String) (h : RouteHop) (hops : List RouteHop) (p : PrettyRoute)
      → r.hops ≡ h ∷ hops
      → All IsWord (h ∷ hops)
      → last_amount h hops ≡ r.amount
      → new_pretty_route alias_of r payment_hash ≡ ok p
      → (sum_fees p.hops % u64_mod ≡ p.fee) × (map without_fee p.hops ≡ map unpriced r.hops)
  unfolding new_pretty_route
  pretty_fees r payment_hash h hops p e w l q =
      let (rest, listed, q₁) = >>=-eq-ok (pretty_hops alias_of h hops) _ (rw (e, first_hop) at q) in
      let (total, s) = pretty_hops-sum h hops rest w listed in
      elim (Bool-cases (r.amount == 0)) [
        | inl z ↦ absurd (cc (rw z at q₁))
        | inr z ↦ let q₂ = rw z at q₁ in ground (arith, total, s, e, l, q₂)
      ]
