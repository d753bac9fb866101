-- ===== src/Graph/Network/Beliefs.antt =====
-- UpdateChannel and RefreshLiquidity of graph/graph.go write what is believed of channels, and keep what gossip says.
use mathlib.Core.Option
use circular.Prelude.{
  ℕ, ◌≡◌, refl, sym, ap, ◌∙◌, String, Option, none, some, Map, lookup, str_eq, ◌&&◌, if◌then◌else◌,
  Option-cases, if-cases, inl, inr,
}
use circular.Lightning.{LightningChannel}
use circular.Graph.Channel.{Channel, reset_liquidity}
use circular.Graph.Network.{
  Graph, modify, update_channel, refresh_liquidity, channel_id, is_expired,
}
use circular.Graph.Network.WellFormed.{IsWellFormed, listed}
use circular.Graph.Network.Liquidity.{lookup-modify, refreshed, lookup-refresh_entries}

-- the same channels by gossip
abbrev pub gossip_of : Option Channel → Option LightningChannel
gossip_of = Option.map (λ c. c.gossip)

abbrev SameGossip : Map Channel → Map Channel → Type 0
SameGossip m m' = (k : String) → gossip_of (lookup k m) ≡ gossip_of (lookup k m')

gossip_of-some :
    (o : Option Channel) (c : Channel)
    → gossip_of o ≡ gossip_of (some c)
    → (d : Channel) × (o ≡ some d) × (d.gossip ≡ c.gossip)
gossip_of-some none c e = absurd (cc e)
gossip_of-some (some d) c e = (d, refl, cc e)

of_gossip :
    (m m' : Map Channel) (k : String) (c : Channel)
    → SameGossip m m'
    → lookup k m' ≡ some c
    → (d : Channel) × (lookup k m ≡ some d) × (d.gossip ≡ c.gossip)
of_gossip m m' k c same e = gossip_of-some (lookup k m) c (same k ∙ ap gossip_of e)

-- what `listed` reads of a channel
abbrev is_listed : String → String → Option LightningChannel → ℕ
is_listed from to none = 0
is_listed from to (some c) = if str_eq c.source from && str_eq c.destination to then 1 else 0

listed-is_listed :
    (scid from to : String) (m : Map Channel)
    → listed scid from to m ≡ is_listed from to (gossip_of (lookup (channel_id scid from to) m))
listed-is_listed scid from to m = elim (Option-cases (lookup (channel_id scid from to) m)) [
  | inl e ↦ rw (e, listed) refl
  | inr (c, e) ↦ rw (e, listed) refl
]

gossip_of-map :
    (f : Channel → Channel) (o : Option Channel)
    → ((c : Channel) → (f c).gossip ≡ c.gossip)
    → gossip_of (Option.map f o) ≡ gossip_of o
gossip_of-map f none keeps = refl
gossip_of-map f (some c) keeps = ap some (keeps c)

modify-SameGossip :
    (k : String) (f : Channel → Channel) (m : Map Channel)
    → ((c : Channel) → (f c).gossip ≡ c.gossip)
    → SameGossip m (modify k f m)
modify-SameGossip k f m keeps j = sym (
    ap gossip_of (lookup-modify k j f m)
    ∙ if-cases (λ o. gossip_of o ≡ gossip_of (lookup j m)) (str_eq k j) _ _
        (λ _. gossip_of-map f (lookup j m) keeps) (λ _. refl))

gossip-refreshed : (threshold now : ℕ) (c : Channel) → (refreshed threshold now c).gossip ≡ c.gossip
unfolding reset_liquidity
gossip-refreshed threshold now c =
    if-cases (λ (d : Channel). d.gossip ≡ c.gossip) (is_expired threshold now c) _ _ (λ _. refl)
      (λ _. refl)

module _ (ends : String → String × String) where
  IsWellFormed-same_gossip :
      (g : Graph) (m : Map Channel)
      → IsWellFormed ends g
      → SameGossip g.channels m
      → IsWellFormed ends (record g { channels = m })
  IsWellFormed-same_gossip g m w same = record {
    keyed = λ k c e.
        let (d, q, s) = of_gossip g.channels m k c same e in
        w.keyed k d q ∙ ap (λ x. channel_id x.short_channel_id x.source x.destination) s;
    placed = λ k c e.
        let (d, q, s) = of_gossip g.channels m k c same e in
        w.placed k d q ∙ ap (λ x. (x.source, x.destination)) s;
    synced = λ scid from to.
        w.synced scid from to
        ∙ listed-is_listed scid from to g.channels
        ∙ ap (is_listed from to) (same _)
        ∙ sym (listed-is_listed scid from to m);
    routed = w.routed;
  }

  -- UpdateChannel keeps the graph well-formed.
  pub update_channel-IsWellFormed :
      (id opposite_id : String) (amount now : ℕ) (g : Graph)
      → IsWellFormed ends g
      → IsWellFormed ends (update_channel id opposite_id amount now g)
  unfolding update_channel
  update_channel-IsWellFormed id opposite_id amount now g w = IsWellFormed-same_gossip g _ w (λ k.
      modify-SameGossip id _ g.channels (λ c. refl) k
      ∙ modify-SameGossip opposite_id _ _ (λ c. refl) k)

  -- RefreshLiquidity keeps the graph well-formed.
  pub refresh_liquidity-IsWellFormed :
      (threshold now : ℕ) (g : Graph)
      → IsWellFormed ends g
      → IsWellFormed ends (refresh_liquidity threshold now g).0
  unfolding refresh_liquidity
  refresh_liquidity-IsWellFormed threshold now g w = IsWellFormed-same_gossip g _ w (λ k. sym (
      ap gossip_of (lookup-refresh_entries threshold now k g.channels)
      ∙ gossip_of-map (refreshed threshold now) (lookup k g.channels)
          (gossip-refreshed threshold now)))
