-- ===== src/Bots/MarketMaker.antt =====
-- `class MarketMaker`: two quotes round the fair value, skewed by its inventory.
use vidhi_trading_platform.Prelude.{
  ℕ, String, ◌||◌, Bool, Option, none, some, ℤ, pos, ◌+ℤ◌, ◌-ℤ◌, ◌*ℤ◌, max_ℤ, round_div, str_eq,
  if◌then◌else◌,
}
use vidhi_trading_platform.Lob.Types.{Side, buy, sell, Fill, Lob, tick_size}
use vidhi_trading_platform.Lob.Orders.{add_order, cancel_order}
use vidhi_trading_platform.Lob.Views.{Snapshot}
use vidhi_trading_platform.Bots.Signal.{Signal, Ratio, is_zero, scaled}

abbrev pub name : String
name = "BOT_MM"

pub record MarketMaker : Type 0 where
  pub scale : Ratio
  pub inventory : ℤ
  pub bid_order_id : Option ℕ
  pub ask_order_id : Option ℕ
  pub bid_price : ℤ
  pub ask_price : ℤ

-- The constructor. The two prices are `null` there; they are read only with an order id, which is
-- set after them.
unfoldable pub new_market_maker : Ratio → MarketMaker
new_market_maker scale = record {
  scale = scale;
  inventory = pos 0;
  bid_order_id = none;
  ask_order_id = none;
  bid_price = pos 0;
  ask_price = pos 0;
}

-- Cancel a quote that is out.
unfoldable pub cancel_quote : Side → ℤ → Option ℕ → Lob → Lob
cancel_quote side price none lob = lob
cancel_quote side price (some i) lob = (cancel_order side price i lob).1

-- `spread`, in tenths of a unit: at least two ticks.
unfoldable pub quote_spread : Snapshot → Signal → ℤ
quote_spread snap signal = max_ℤ (pos 2000) (pos 8 *ℤ snap.spread +ℤ pos 5 *ℤ signal.volatility)

-- The two prices: fair value less or plus half the spread, less the skew of 0.002 dollars for each
-- unit held, rounded to a tick. In twentieths of a unit, 2000 of which make a tick.
unfoldable pub quote_bid : Snapshot → Signal → ℤ → ℤ
quote_bid snap signal inventory =
    round_div (pos 20 *ℤ signal.fair_value -ℤ quote_spread snap signal -ℤ pos 400 *ℤ inventory) 2000
    *ℤ tick_size

unfoldable pub quote_ask : Snapshot → Signal → ℤ → ℤ
quote_ask snap signal inventory =
    round_div (pos 20 *ℤ signal.fair_value +ℤ quote_spread snap signal -ℤ pos 400 *ℤ inventory) 2000
    *ℤ tick_size

unfoldable pub compute : Snapshot → Signal → MarketMaker × Lob → MarketMaker × Lob
unfolding cancel_quote quote_spread quote_bid quote_ask
compute snap signal (bot, lob) =
    let bid = quote_bid snap signal bot.inventory in
    let ask = quote_ask snap signal bot.inventory in
    let free =
      cancel_quote sell bot.ask_price bot.ask_order_id
        (cancel_quote buy bot.bid_price bot.bid_order_id lob) in
    let priced : MarketMaker = record bot { bid_price = bid; ask_price = ask } in
    let volume = scaled (pos 50) bot.scale in
    let (bid_id, with_bid) = add_order buy bid volume name free in
    let (ask_id, with_both) = add_order sell ask volume name with_bid in
    if is_zero bot.scale
    then (priced, free)
    else (record priced { bid_order_id = some bid_id; ask_order_id = some ask_id }, with_both)

abbrev pub is_mine : Fill → Bool
is_mine f = str_eq f.participant_id name || str_eq f.maker_participant_id name

abbrev pub moved : Side → ℤ → ℤ → ℤ
moved buy volume inventory = inventory -ℤ volume
moved sell volume inventory = inventory +ℤ volume

-- `onFill`
unfoldable pub on_fill : Fill → MarketMaker → MarketMaker
on_fill fill bot =
    if is_mine fill
    then record bot { inventory = moved fill.side fill.volume bot.inventory }
    else bot
