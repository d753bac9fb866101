-- ===== src/Graph/Channel/Laws.antt =====
-- The limits of a new channel, and what a channel is believed to hold.
use circular.Prelude.{
  String, All, u64_mod, ℕ, ◌+◌, ◌*◌, ◌^◌, ◌<◌, ◌≡◌, arith, mul64_lem, half_float64_lem,
}
use circular.Lightning.{LightningChannel}
use circular.Graph.Htlc.{codes}
use circular.Graph.Htlc.Laws.{decimal, IsDigit, IsAmount, parse_msat-decimal}
use circular.Graph.Channel.{Channel, new_channel, half_liquidity, reset_liquidity}

-- Below 2 ^ 53 msat, some 90,000 bitcoin, no rounding takes place: half of the capacity in msat.
pub half_liquidity_lem :
    (satoshis : ℕ) → satoshis * 1000 < 2 ^ 53 → half_liquidity satoshis ≡ satoshis * 500
unfolding half_liquidity
half_liquidity_lem satoshis h =
    rw (mul64_lem satoshis 1000 (omega arith), half_float64_lem (satoshis * 1000) h) (omega arith)

-- After a reset two directions of one capacity, below 2 ^ 53 msat, are believed to hold the
-- capacity together.
pub reset_liquidity_halves :
    (now : ℕ) (c d : Channel)
    → c.satoshis ≡ d.satoshis
    → c.satoshis * 1000 < 2 ^ 53
    → (reset_liquidity now c).liquidity + (reset_liquidity now d).liquidity ≡ c.satoshis * 1000
unfolding reset_liquidity
reset_liquidity_halves now c d e h =
    omega (arith, half_liquidity_lem c.satoshis h, half_liquidity_lem d.satoshis (omega arith))

-- If the texts of the two limits of the gossip are decimal digits of amounts that fit 64 bits, each
-- with the unit msat behind them or without, then NewChannel holds those amounts as its limits, the
-- greatest and the least in their places.
pub new_channel-limits :
    (c : LightningChannel) (liquidity timestamp : ℕ) (s t : String)
    → IsAmount c.htlc_maximum s
    → IsAmount c.htlc_minimum t
    → All IsDigit (codes s)
    → All IsDigit (codes t)
    → decimal 0 (codes s) < u64_mod
    → decimal 0 (codes t) < u64_mod
    → ((new_channel c liquidity timestamp).max_htlc_msat ≡ decimal 0 (codes s))
      × ((new_channel c liquidity timestamp).min_htlc_msat ≡ decimal 0 (codes t))
unfolding new_channel
new_channel-limits c liquidity timestamp s t max min d d' h h' =
    (parse_msat-decimal c.htlc_maximum s max d h, parse_msat-decimal c.htlc_minimum t min d' h')
