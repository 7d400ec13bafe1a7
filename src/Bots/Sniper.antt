-- ===== src/Bots/Sniper.antt =====
-- `class SniperBot`: it takes the best level when that is more than a tick off the fair value.
use vidhi_trading_platform.Prelude.{
  String, List, [], ◌∷◌, pos, ◌+ℤ◌, ◌-ℤ◌, ltb_ℤ, min_ℤ, if◌then◌else◌,
}
use vidhi_trading_platform.Lob.Types.{Side, buy, sell, Lob, tick_size}
use vidhi_trading_platform.Lob.Market.{market_order}
use vidhi_trading_platform.Lob.Views.{Snapshot, DepthRow}
use vidhi_trading_platform.Bots.Signal.{Signal, Ratio, is_zero}

abbrev pub name : String
name = "BOT_SNIPER"

-- `if (depth) this.lob.marketOrder(side, Math.min(depth.volume, 100), this.id)`
unfoldable pub snipe : Side → List DepthRow → Lob → Lob
snipe side [] lob = lob
snipe side (d ∷ _) lob = (market_order side (min_ℤ d.volume (pos 100)) name lob).lob

-- The bot has no state but its scale.
unfoldable pub compute : Snapshot → Signal → Ratio → Lob → Lob
unfolding snipe
compute snap signal scale lob =
    let bought =
      if ltb_ℤ snap.ask_price (signal.fair_value -ℤ tick_size)
      then snipe buy snap.ask_depth lob
      else lob in
    let sold =
      if ltb_ℤ (signal.fair_value +ℤ tick_size) snap.bid_price
      then snipe sell snap.bid_depth bought
      else bought in
    if is_zero scale then lob else sold
