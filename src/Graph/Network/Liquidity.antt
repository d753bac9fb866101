-- ===== src/Graph/Network/Liquidity.antt =====
-- What the graph believes of liquidity, after a failed payment and after a refresh.
use circular.Prelude.{
  ℕ, Bool, ltb, ◌^◌, i64_half, add64_lem, slt_lem, Entries, ◌+◌, ◌*◌, ◌≤◌, ◌<◌, ◌≡◌, ◌≢◌, refl,
  String, some, [], ◌∷◌, Map, lookup, lookup-insert, str_eq, eq_iff, if◌then◌else◌, arith, sub64,
  sub64_lem, mul64, mul64_lem, u64_mod, inl, inr, Option-cases,
}
use mathlib.Core.Option
use circular.Graph.Channel.{Channel, reset_liquidity}
use circular.Graph.Channel.Laws.{half_liquidity_lem}
use circular.Graph.Network.{
  Graph, modify, update_channel, is_expired, refresh_entries, refresh_liquidity, count_channels,
}

pub lookup-modify :
    (k j : String) (f : Channel → Channel) (m : Map Channel)
    → lookup j (modify k f m) ≡ (if str_eq k j then Option.map f (lookup j m) else lookup j m)
lookup-modify k j f m = elim (Option-cases (lookup k m)) [
  | inl e ↦ ground (arith, e, eq_iff k j)
  | inr (c, e) ↦ ground (arith, e, eq_iff k j, lookup-insert k j (f c) m)
]

-- what a report that `amount` did not pass makes of the channel, and of its opposite
abbrev pub failed : ℕ → ℕ → Channel → Channel
failed amount now c = record c { liquidity = amount; timestamp = now }

abbrev pub opposite : ℕ → ℕ → Channel → Channel
opposite amount now c = record c {
  liquidity = sub64 (mul64 c.satoshis 1000) amount;
  timestamp = now;
}

-- For two different ids, UpdateChannel writes the channel of each of them that the map has, and no
-- other.
pub lookup-update_channel :
    (id opposite_id : String) (amount now : ℕ) (g : Graph) (k : String)
    → id ≢ opposite_id
    → lookup k (update_channel id opposite_id amount now g).channels ≡ (
        if str_eq id k
        then Option.map (failed amount now) (lookup k g.channels)
        else if str_eq opposite_id k
        then Option.map (opposite amount now) (lookup k g.channels)
        else lookup k g.channels)
unfolding update_channel
lookup-update_channel id opposite_id amount now g k h =
    rw
      (
        lookup-modify opposite_id k (opposite amount now)
            (modify id (failed amount now) g.channels),
        lookup-modify id k (failed amount now) g.channels,
      )
      (ground (arith, eq_iff id k, eq_iff opposite_id k, λ (e : id ≡ opposite_id). h e))

-- After UpdateChannel the two directions of a channel, of one capacity, are believed to hold the
-- capacity together, if the amount is within it and the capacity in msat fits 64 bits.
pub update_channel-conserves :
    (id opposite_id : String) (amount now : ℕ) (g : Graph) (c d c' d' : Channel)
    → id ≢ opposite_id
    → lookup id g.channels ≡ some c
    → lookup opposite_id g.channels ≡ some d
    → c.satoshis ≡ d.satoshis
    → amount ≤ c.satoshis * 1000
    → c.satoshis * 1000 < u64_mod
    → lookup id (update_channel id opposite_id amount now g).channels ≡ some c'
    → lookup opposite_id (update_channel id opposite_id amount now g).channels ≡ some d'
    → c'.liquidity + d'.liquidity ≡ c.satoshis * 1000
update_channel-conserves id opposite_id amount now g c d c' d' n e₁ e₂ s b w q₁ q₂ = ground (
  arith,
  lookup-update_channel id opposite_id amount now g id n,
  lookup-update_channel id opposite_id amount now g opposite_id n,
  eq_iff id id,
  eq_iff opposite_id opposite_id,
  eq_iff id opposite_id,
  mul64_lem d.satoshis 1000,
  sub64_lem (d.satoshis * 1000) amount,
)

abbrev pub refreshed : ℕ → ℕ → Channel → Channel
refreshed threshold now c = if is_expired threshold now c then reset_liquidity now c else c

pub lookup-refresh_entries :
    (threshold now : ℕ) (k : String) (m : Map Channel)
    → lookup k (refresh_entries threshold now m).0
      ≡ Option.map (refreshed threshold now) (lookup k m)
unfolding refresh_entries lookup
lookup-refresh_entries threshold now k [] = refl
lookup-refresh_entries threshold now k ((j, c) ∷ m) =
    ground (arith, lookup-refresh_entries threshold now k m)

-- a channel whose timestamp and capacity are in range
abbrev pub IsDated : ℕ → Channel → Type 0
IsDated threshold c = (c.timestamp + threshold < i64_half) × (c.satoshis * 1000 < 2 ^ 53)

abbrev pub is_older : ℕ → ℕ → Channel → Bool
is_older threshold now c = ltb (c.timestamp + threshold) now

-- half of the capacity, in msat, if the belief is older than the threshold
abbrev pub aged : ℕ → ℕ → Channel → Channel
aged threshold now c =
    if is_older threshold now c
    then record c { liquidity = c.satoshis * 500; timestamp = now }
    else c

module _ (threshold now : ℕ) (soon : now < i64_half) where
  is_expired-is_older :
      (c : Channel) → IsDated threshold c → is_expired threshold now c ≡ is_older threshold now c
  unfolding is_expired
  is_expired-is_older c d =
      rw (add64_lem c.timestamp threshold (omega (arith, d.0)))
        (slt_lem (c.timestamp + threshold) now d.0 soon)

  reset_liquidity-aged :
      (c : Channel)
      → IsDated threshold c
      → reset_liquidity now c ≡ record c { liquidity = c.satoshis * 500; timestamp = now }
  unfolding reset_liquidity
  reset_liquidity-aged c d = rw (half_liquidity_lem c.satoshis d.1) refl

  refresh_entries-aged :
      (k : String) (m : Map Channel)
      → Entries (λ j c. IsDated threshold c) m
      → (lookup k (refresh_entries threshold now m).0
          ≡ Option.map (aged threshold now) (lookup k m))
        × ((refresh_entries threshold now m).1 ≡ count_channels (is_older threshold now) m)
  unfolding refresh_entries lookup count_channels
  refresh_entries-aged k [] d = (refl, refl)
  refresh_entries-aged k ((j, c) ∷ m) (d, ds) =
      let ih = refresh_entries-aged k m ds in
      let test = is_expired-is_older c d in
      let reset = reset_liquidity-aged c d in
      (ground (arith, ih, test, reset), ground (arith, ih, test))

  -- RefreshLiquidity sets the channels whose timestamp is more than the threshold before now to
  -- half of their capacity in msat, with the timestamp now, leaves the others alone, and returns
  -- how many it has set; if now and each timestamp plus the threshold are below 2 ^ 63 and each
  -- capacity is below 2 ^ 53 msat.
  pub refresh_liquidity_lem :
      (g : Graph) (k : String)
      → Entries (λ j c. IsDated threshold c) g.channels
      → (lookup k (refresh_liquidity threshold now g).0.channels
          ≡ Option.map (aged threshold now) (lookup k g.channels))
        × ((refresh_liquidity threshold now g).1
            ≡ count_channels (is_older threshold now) g.channels)
  unfolding refresh_liquidity
  refresh_liquidity_lem g k d = refresh_entries-aged k g.channels d
