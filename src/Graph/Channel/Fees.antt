-- ===== src/Graph/Channel/Fees.antt =====
-- The fee of a channel: what `compute_fee` is when its fields have the width of the protocol, and its
-- bounds. The protocol's fee fields are 32 bits wide; the code holds them in 64.
use circular.Prelude.{ℕ, ◌+◌, ◌-◌, ◌*◌, ◌/◌, ◌^◌, ◌≤◌, ◌<◌, ◌≡◌, arith, add64_lem, mul64_lem}
use circular.Graph.Channel.{Channel, proportional_fee, compute_fee}

-- the fee fields fit 32 bits
pub record IsProtocol (c : Channel) : Type 0 where
  pub base : c.base_fee_millisatoshi < 2 ^ 32
  pub rate : c.fee_per_millionth < 2 ^ 32

-- 2 ^ 41 msat, about 22 bitcoin
abbrev pub max_amount : ℕ
max_amount = 2 ^ 41

-- the fee over the integers, with no wrap-around: the base, and a millionth of the rate for each whole
-- satoshi, rounded up
abbrev pub exact_fee : Channel → ℕ → ℕ
exact_fee c amount = c.base_fee_millisatoshi + ((amount / 1000) * c.fee_per_millionth + 999) / 1000

pub proportional_fee_ceiling : (n : ℕ) → proportional_fee n ≡ (n + 999) / 1000
unfolding proportional_fee
proportional_fee_ceiling n = ground arith

product_bound : (a r : ℕ) → a < 2 ^ 32 → r < 2 ^ 32 → a * r ≤ (2 ^ 32 - 1) * (2 ^ 32 - 1)
product_bound a r h k = grind arith

product_fits :
    (c : Channel) (amount : ℕ)
    → IsProtocol c
    → amount < max_amount
    → amount / 1000 * c.fee_per_millionth ≤ (2 ^ 32 - 1) * (2 ^ 32 - 1)
product_fits c amount p h = product_bound (amount / 1000) c.fee_per_millionth (omega arith) p.rate

-- For an amount below 2 ^ 41 msat and fee fields of 32 bits nothing wraps around: the fee is the
-- base fee plus the proportional fee of the whole satoshis of the amount, whose rest in msat is
-- dropped, rounded up to a whole msat.
pub compute_fee-eq-exact_fee :
    (c : Channel) (amount : ℕ)
    → IsProtocol c
    → amount < max_amount
    → compute_fee c amount ≡ exact_fee c amount
unfolding compute_fee
compute_fee-eq-exact_fee c amount p h =
    let fits = product_fits c amount p h in
    rw
      (
        mul64_lem (amount / 1000) c.fee_per_millionth (omega arith),
        proportional_fee_ceiling (amount / 1000 * c.fee_per_millionth),
      )
      (add64_lem c.base_fee_millisatoshi _ (omega arith))

pub exact_fee-lt :
    (c : Channel) (amount : ℕ) → IsProtocol c → amount < max_amount → exact_fee c amount < 2 ^ 55
exact_fee-lt c amount p h = omega (arith, product_fits c amount p h)

exact_fee_mono : (c : Channel) (a b : ℕ) → a ≤ b → exact_fee c a ≤ exact_fee c b
exact_fee_mono c a b h =
    let k : a / 1000 ≤ b / 1000 = omega arith in
    let m : a / 1000 * c.fee_per_millionth ≤ b / 1000 * c.fee_per_millionth = grind arith in
    omega arith

-- For amounts below 2 ^ 41 msat and fee fields of 32 bits a larger amount never costs less.
pub compute_fee_mono :
    (c : Channel) (a b : ℕ)
    → IsProtocol c
    → b < max_amount
    → a ≤ b
    → compute_fee c a ≤ compute_fee c b
compute_fee_mono c a b p h k =
    rw (compute_fee-eq-exact_fee c a p (omega arith), compute_fee-eq-exact_fee c b p h)
      (exact_fee_mono c a b k)
