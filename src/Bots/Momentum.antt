-- ===== src/Bots/Momentum.antt =====
-- `class MomentumBot`: it trades with a move of the mid price away from its moving average.
use vidhi_trading_platform.Prelude.{◌*◌, String, ℤ, pos, ◌+ℤ◌, ◌-ℤ◌, ◌*ℤ◌, ltb_ℤ, if◌then◌else◌}
use vidhi_trading_platform.Lob.Types.{buy, sell, Lob}
use vidhi_trading_platform.Lob.Market.{market_order}
use vidhi_trading_platform.Lob.Views.{Snapshot}
use vidhi_trading_platform.Bots.Signal.{Ratio, is_zero, scaled}

abbrev pub name : String
name = "BOT_MOM"

pub record MomentumBot : Type 0 where
  pub scale : Ratio
  pub ema : Ratio

unfoldable pub new_momentum : ℤ → Ratio → MomentumBot
new_momentum base scale = record { scale = scale; ema = record { num = base; den = 1 } }

-- `0.97 * this.ema + 0.03 * snap.midPrice`
unfoldable pub next_ema : ℤ → Ratio → Ratio
next_ema mid e = record { num = pos 97 *ℤ e.num +ℤ pos 3 *ℤ (mid *ℤ pos e.den); den = 100 * e.den }

unfoldable pub compute : Snapshot → MomentumBot × Lob → MomentumBot × Lob
unfolding next_ema
compute snap (bot, lob) =
    let ema = next_ema snap.mid_price bot.ema in
    -- three ticks, and the strength of the signal, times the denominator
    let limit = pos 300 *ℤ pos ema.den in
    let strength = snap.mid_price *ℤ pos ema.den -ℤ ema.num in
    let volume = scaled (pos 30) bot.scale in
    let bought = if ltb_ℤ limit strength then (market_order buy volume name lob).lob else lob in
    let sold =
      if ltb_ℤ strength (pos 0 -ℤ limit)
      then (market_order sell volume name bought).lob
      else bought in
    if is_zero bot.scale then (bot, lob) else (record bot { ema = ema }, sold)
