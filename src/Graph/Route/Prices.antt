-- ===== src/Graph/Route/Prices.antt =====
-- The amounts and delays along a route.
use circular.Prelude.{
  ℕ, ◌+◌, ◌<◌, ◌≡◌, refl, ap, List, [], ◌∷◌, ◌++◌, arith, add64, sub64, u64_mod, List-cases, inl,
  inr, ◌%◌, ◌∙◌,
}
use circular.Errors.{ok}
use circular.Graph.Channel.{Channel, compute_fee}
use circular.Graph.Route.{
  RouteHop, Route, first_hop, route_fee, prepend, before, recompute_fee_and_delay, append,
  initial_delay,
}

-- Each hop carries what the next hop carries and the fee of the next channel, and waits as much longer
-- as the next channel asks for; the last hop carries `amount` and waits `delay`.
pub data IsPriced (amount delay : ℕ) : List RouteHop → Type 0 where
  last :
      (h : RouteHop) → h.milli_satoshi ≡ amount → h.delay ≡ delay → IsPriced amount delay (h ∷ [])
  step :
      (h next : RouteHop) (hops : List RouteHop)
      → h.milli_satoshi ≡ add64 next.milli_satoshi (compute_fee next.channel next.milli_satoshi)
      → h.delay ≡ add64 next.delay next.channel.delay
      → IsPriced amount delay (next ∷ hops)
      → IsPriced amount delay (h ∷ next ∷ hops)

before-IsPriced :
    {a d : ℕ} (h : RouteHop) {hops : List RouteHop}
    → IsPriced a d hops
    → IsPriced a d (before h hops)
before-IsPriced h (last l p q) = step _ l [] refl refl (last l p q)
before-IsPriced h (step k n hops p q r) = step _ k _ refl refl (step k n hops p q r)

recompute-IsPriced :
    (hops : List RouteHop) (l : RouteHop)
    → IsPriced l.milli_satoshi l.delay (recompute_fee_and_delay (hops ++ l ∷ []))
unfolding recompute_fee_and_delay
recompute-IsPriced [] l = last l refl refl
recompute-IsPriced (h ∷ hops) l = before-IsPriced h (recompute-IsPriced hops l)

-- After Append every hop of the route carries the amount of the next hop and the fee of the next
-- channel, with the delays added up in the same way, and the last hop carries the amount of the
-- route and the initial delay.
pub append-IsPriced : (c : Channel) (r : Route) → IsPriced r.amount initial_delay (append c r).hops
unfolding append
append-IsPriced c r = recompute-IsPriced r.hops _

-- The channels, in order.
abbrev pub channels : List RouteHop → List Channel
channels [] = []
channels (h ∷ hops) = h.channel ∷ channels hops

channels-before :
    (h : RouteHop) (hops : List RouteHop) → channels (before h hops) ≡ h.channel ∷ channels hops
channels-before h [] = refl
channels-before h (n ∷ hops) = refl

channels-recompute :
    (hops : List RouteHop) (l : RouteHop)
    → channels (recompute_fee_and_delay (hops ++ l ∷ [])) ≡ channels hops ++ l.channel ∷ []
unfolding recompute_fee_and_delay
channels-recompute [] l = refl
channels-recompute (h ∷ hops) l =
    channels-before h (recompute_fee_and_delay (hops ++ l ∷ []))
    ∙ ap (◌∷◌ h.channel) (channels-recompute hops l)

channels-append : (c : Channel) (r : Route) → channels (append c r).hops ≡ channels r.hops ++ c ∷ []
unfolding append
channels-append c r = channels-recompute r.hops _

-- For a route that has a hop, Prepend and Append put one channel before and one behind those of the
-- route, and leave its ends and its amount alone.
pub channels-append-prepend :
    (c₀ c₁ : Channel) (r : Route) (h : RouteHop) (hops : List RouteHop)
    → r.hops ≡ h ∷ hops
    → (r' : Route) × (prepend c₀ r ≡ ok r')
      × (channels (append c₁ r').hops ≡ c₀ ∷ channels r.hops ++ c₁ ∷ [])
      × ((append c₁ r').amount ≡ r.amount)
      × ((append c₁ r').source ≡ r.source)
      × ((append c₁ r').destination ≡ r.destination)
unfolding prepend append
channels-append-prepend c₀ c₁ r h hops e = (
  record r {
    hops = record { channel = c₀; milli_satoshi = h.milli_satoshi; delay = h.delay } ∷ r.hops;
  },
  rw (e, first_hop),
  channels-recompute (_ ∷ r.hops) _,
  refl,
  refl,
  refl,
)

-- What the channels after the first charge, for the amounts that they carry on.
abbrev pub total_fee : List RouteHop → ℕ
total_fee [] = 0
total_fee (h ∷ []) = 0
total_fee (h ∷ n ∷ hops) = compute_fee n.channel n.milli_satoshi + total_fee (n ∷ hops)

priced_total :
    {a d : ℕ} (h : RouteHop) (hops : List RouteHop)
    → IsPriced a d (h ∷ hops)
    → a < u64_mod
    → h.milli_satoshi ≡ (a + total_fee (h ∷ hops)) % u64_mod
unfolding add64
priced_total h [] (last _ p q) b = omega arith
priced_total h (n ∷ hops) (step _ _ _ p q r) b = omega (arith, priced_total n hops r b)

fee-priced :
    {d : ℕ} (r : Route)
    → IsPriced r.amount d r.hops
    → r.amount < u64_mod
    → route_fee r ≡ ok (total_fee r.hops % u64_mod)
unfolding route_fee sub64
fee-priced r p b = elim (List-cases r.hops) [
  | inl e ↦ absurd (not_priced (rw e at p))
  | inr (h, hops, e) ↦ rw (e, first_hop) (ap ok (omega (arith, priced_total h hops (rw e at p) b)))
]
  where
    not_priced : {a d : ℕ} → IsPriced a d [] → ⊥
    not_priced p = elim p [ ]

-- The fee of a route after Append, for an amount of 64 bits, is what the channels after the first
-- charge, as a 64-bit word.
pub fee-append :
    (c : Channel) (r : Route)
    → r.amount < u64_mod
    → route_fee (append c r) ≡ ok (total_fee (append c r).hops % u64_mod)
unfolding append
fee-append c r b = fee-priced (append c r) (append-IsPriced c r) b
