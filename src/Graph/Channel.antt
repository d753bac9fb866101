-- ===== src/Graph/Channel.antt =====
-- graph/channel.go: one direction of a channel, with what is believed of its liquidity.
-- A method that writes through its receiver returns the new channel. time.Now().Unix() is the
-- argument `now`.
pub mod Fees
pub mod Laws
use circular.Prelude.{
  ℕ, ◌+◌, ◌-◌, ◌*◌, ◌/◌, ◌<◌, String, Bool, true, false, ◌&&◌, ltb, leb, ◌==◌, str_lt,
  if◌then◌else◌, add64, mul64, half_float64,
}
use circular.Lightning.{LightningChannel, LightningHop}
use circular.Errors.{Result, ok, err, panic}
use circular.Graph.Htlc.{parse_msat}

pub record Channel : Type 0 where
  pub gossip : LightningChannel
  pub open gossip use *
  pub liquidity : ℕ
  pub timestamp : ℕ
  pub max_htlc_msat : ℕ
  pub min_htlc_msat : ℕ

unfoldable pub new_channel : LightningChannel → ℕ → ℕ → Channel
new_channel channel liquidity timestamp = record {
  gossip = channel;
  liquidity = liquidity;
  timestamp = timestamp;
  max_htlc_msat = parse_msat channel.htlc_maximum;
  min_htlc_msat = parse_msat channel.htlc_minimum;
}

-- the ceiling of numerator / 1000
unfoldable pub proportional_fee : ℕ → ℕ
proportional_fee numerator = if ltb 0 numerator then (numerator - 1) / 1000 + 1 else 0

unfoldable pub compute_fee : Channel → ℕ → ℕ
unfolding proportional_fee
compute_fee c amount =
    add64 c.base_fee_millisatoshi (proportional_fee (mul64 (amount / 1000) c.fee_per_millionth))

-- Go panics on a division by zero.
unfoldable pub compute_fee_ppm : Channel → ℕ → Result ℕ
compute_fee_ppm c amount =
    if amount == 0 then err panic else ok (mul64 (compute_fee c amount) 1000000 / amount)

unfoldable pub channel_direction : Channel → ℕ
channel_direction c = if str_lt c.source c.destination then 0 else 1

unfoldable pub get_hop : Channel → ℕ → ℕ → LightningHop
unfolding channel_direction
get_hop c amount delay = record {
  id = c.destination;
  short_channel_id = c.short_channel_id;
  milli_satoshi = amount;
  delay = delay;
  direction = channel_direction c;
}

unfoldable pub can_forward : Channel → ℕ → Bool
can_forward c amount =
    c.is_active
    && leb amount c.liquidity
    && leb amount c.max_htlc_msat
    && leb c.min_htlc_msat amount

-- uint64(0.5 * float64(satoshis * 1000))
unfoldable pub half_liquidity : ℕ → ℕ
half_liquidity satoshis = half_float64 (mul64 satoshis 1000)

unfoldable pub reset_liquidity : ℕ → Channel → Channel
unfolding half_liquidity
reset_liquidity now c = record c { liquidity = half_liquidity c.satoshis; timestamp = now }
