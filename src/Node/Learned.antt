-- ===== src/Node/Learned.antt =====
-- What a failed payment teaches the graph: from OnPaymentFailure to UpdateLiquidity.
use Prim.Native.String.{◌++◌ as str_append}
use text.Mathlib.TextLemmas.{append_inj}
use mathlib.Core.Option
use circular.Graph.Channel.{Channel}
use circular.Prelude.{
  Option, ℕ, zero, suc, ◌-◌, ◌≤◌, ◌<◌, ◌≡◌, ◌≢◌, refl, sym, String, [], lookup, str_eq, eq_iff,
  if◌then◌else◌, arith, sub64, sub64_lem, u64_mod, itoa,
}
use circular.Lightning.{SendPayFailure}
use circular.Util.{min}
use circular.Graph.Network.{Graph}
use circular.Graph.Network.Liquidity.{failed, opposite, lookup-update_channel}
use circular.Node.Store.{Badger, Json}
use circular.Node.State.{Node, Client}
use circular.Node.Payments.{channel_key, apply_update, update_liquidity, report_failure}

abbrev text_0 : String
text_0 = "/0"

abbrev text_1 : String
text_1 = "/1"

texts-ne : text_0 ≢ text_1
texts-ne e = absurd (ground (arith, eq_iff text_0 text_1, e))

keys-ne : (scid : String) → str_append scid text_0 ≢ str_append scid text_1
keys-ne scid e = texts-ne (append_inj {s₁ = scid} {s₂ = scid} e refl).1

-- the amount that is believed to be there after a failure, without wrap-around
abbrev pub left_after : ℕ → ℕ
left_after msat = msat - min msat 1000000

sub-min : (msat : ℕ) → msat < u64_mod → sub64 msat (min msat 1000000) ≡ left_after msat
unfolding min
sub-min msat h = ground (arith, sub64_lem msat (min msat 1000000))

module _ {D L : Type 0} (b : Badger D) (json : Json) (client : Client L) where
  -- what UpdateLiquidity makes of the channel of an id
  abbrev pub learned :
      (scid : String) (direction other amount now : ℕ) → Graph → String → Option Channel
  learned scid direction other amount now g k =
      if str_eq (channel_key scid direction) k
      then Option.map (failed amount now) (lookup k g.channels)
      else if str_eq (channel_key scid other) k
      then Option.map (opposite amount now) (lookup k g.channels)
      else lookup k g.channels

  lookup-apply_update :
      (scid : String) (direction amount now : ℕ) (g : Graph) (k : String)
      → direction ≤ 1
      → lookup k
          (apply_update now
            (record { amount = amount; short_channel_id = scid; direction = direction })
            g).channels
        ≡ learned scid direction (1 - direction) amount now g k
  unfolding apply_update itoa
  lookup-apply_update scid zero amount now g k h =
      lookup-update_channel _ _ amount now g k (keys-ne scid)
  lookup-apply_update scid (suc zero) amount now g k h =
      lookup-update_channel _ _ amount now g k (λ e. keys-ne scid (sym e))
  lookup-apply_update scid (suc (suc d)) amount now g k h = absurd (omega arith)

  -- After the report of a failure with no update before it, and a round of UpdateLiquidity, the
  -- channel that failed, in the direction that failed, is believed to hold the amount of the
  -- payment less 1000 satoshis, or nothing if the amount is smaller; the opposite direction its
  -- capacity less that, modulo 2 ^ 64; and no other channel changes. The direction is 0 or 1, and
  -- the amount fits 64 bits.
  pub lookup-report_failure :
      (sf : SendPayFailure) (n : Node D L) (now : ℕ) (k : String)
      → n.updates ≡ []
      → sf.erring_direction ≤ 1
      → sf.milli_satoshi < u64_mod
      → lookup k (update_liquidity now (report_failure b json client sf n)).graph.channels
        ≡ learned sf.erring_channel sf.erring_direction
            (1 - sf.erring_direction)
            (left_after sf.milli_satoshi)
            now
            n.graph
            k
  unfolding update_liquidity report_failure
  lookup-report_failure sf n now k idle h w =
      rw (idle, update_liquidity, report_failure)
        (rw (sub-min sf.milli_satoshi w) (
          lookup-apply_update sf.erring_channel sf.erring_direction (left_after sf.milli_satoshi)
            now n.graph k h))
