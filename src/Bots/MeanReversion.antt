-- ===== src/Bots/MeanReversion.antt =====
-- `class MeanReversionBot`: it quotes against a deviation of the mid price, eight orders a side.
use vidhi_trading_platform.Prelude.{
  String, Option, none, some, ℤ, pos, ◌+ℤ◌, ◌-ℤ◌, ltb_ℤ, if◌then◌else◌,
}
use vidhi_trading_platform.Lob.Types.{Side, buy, sell, Lob, tick_size}
use vidhi_trading_platform.Lob.Orders.{add_order, cancel_order}
use vidhi_trading_platform.Lob.Views.{Snapshot}
use vidhi_trading_platform.Bots.Signal.{Signal, Ratio, is_zero, scaled}
use vidhi_trading_platform.Bots.Ring.{Entry, OrderRing, new_ring, push}

abbrev pub name : String
name = "BOT_MR"

pub record MeanReversionBot : Type 0 where
  pub scale : Ratio
  pub bid_ring : OrderRing
  pub ask_ring : OrderRing

unfoldable pub new_mean_reversion : Ratio → MeanReversionBot
unfolding new_ring
new_mean_reversion scale = record { scale = scale; bid_ring = new_ring 8; ask_ring = new_ring 8 }

-- `if (evicted) this.lob.cancelOrder(side, evicted.price, evicted.id)`
unfoldable pub cancel_evicted : Side → Option Entry → Lob → Lob
cancel_evicted side none lob = lob
cancel_evicted side (some e) lob = (cancel_order side e.price e.id lob).1

-- Place an order, and cancel the one that it pushes out of the ring.
unfoldable pub place : Side → ℤ → ℤ → String → OrderRing → Lob → OrderRing × Lob
unfolding push cancel_evicted
place side price volume who ring lob =
    let (i, placed) = add_order side price volume who lob in
    let (evicted, ring') = push i price ring in (ring', cancel_evicted side evicted placed)

unfoldable pub compute : Snapshot → Signal → MeanReversionBot × Lob → MeanReversionBot × Lob
unfolding place
compute snap signal (bot, lob) =
    let dev = snap.mid_price -ℤ signal.fair_value in
    let volume = scaled (pos 80) bot.scale in
    let (asks, with_ask) =
      if ltb_ℤ (pos 500) dev
      then place sell (snap.mid_price -ℤ tick_size) volume name bot.ask_ring lob
      else (bot.ask_ring, lob) in
    let (bids, with_bid) =
      if ltb_ℤ dev (pos 0 -ℤ pos 500)
      then place buy (snap.mid_price +ℤ tick_size) volume name bot.bid_ring with_ask
      else (bot.bid_ring, with_ask) in
    if is_zero bot.scale
    then (bot, lob)
    else (record bot { bid_ring = bids; ask_ring = asks }, with_bid)
