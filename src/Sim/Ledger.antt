-- ===== src/Sim/Ledger.antt =====
-- Steps 6 and 7 of `runBatch`: the contestant's position and cash, the bots' `onFill`, the counts of
-- bot activity, and the profit marked to market.
use vidhi_trading_platform.Prelude.{
  ℕ, ◌+◌, List, [], ◌∷◌, ℤ, pos, ◌+ℤ◌, ◌-ℤ◌, ◌*ℤ◌, str_eq, if◌then◌else◌,
}
use vidhi_trading_platform.Lob.Types.{Side, buy, sell, Fill, Lob}
use vidhi_trading_platform.Lob.Views.{mid}
use vidhi_trading_platform.Bots.MarketMaker.{MarketMaker, on_fill}
use vidhi_trading_platform.Sim.Types.{BotActivity, contestant_name, starting_cash}

-- The variables that a fill changes.
pub record Account : Type 0 where
  pub position : ℤ
  pub cash : ℤ
  pub total_fills : ℕ

abbrev pub taker_sign : Side → ℤ → ℤ
taker_sign buy v = v
taker_sign sell v = pos 0 -ℤ v

-- The contestant as the taker of a fill.
unfoldable pub taker_fill : Fill → Account → Account
taker_fill f a = record {
  position = a.position +ℤ taker_sign f.side f.volume;
  cash = a.cash -ℤ taker_sign f.side f.volume *ℤ f.price;
  total_fills = a.total_fills + 1;
}

abbrev pub maker_sign : Side → ℤ → ℤ
maker_sign buy v = pos 0 -ℤ v
maker_sign sell v = v

-- The contestant as the maker of a fill: its cash moves the way that its position does.
unfoldable pub maker_fill : Fill → Account → Account
maker_fill f a = record {
  position = a.position +ℤ maker_sign f.side f.volume;
  cash = a.cash +ℤ maker_sign f.side f.volume *ℤ f.price;
  total_fills = a.total_fills + 1;
}

unfoldable pub settle_fill : Fill → Account → Account
unfolding taker_fill maker_fill
settle_fill f a =
    let taken = if str_eq f.participant_id contestant_name then taker_fill f a else a in
    if str_eq f.maker_participant_id contestant_name then maker_fill f taken else taken

unfoldable pub settle : List Fill → Account → Account
unfolding settle_fill
settle [] a = a
settle (f ∷ fs) a = settle fs (settle_fill f a)

-- `botFillKey` and its count, by the taker of the fill.
unfoldable pub count_fill : Fill → BotActivity → BotActivity
count_fill f a =
    if str_eq f.participant_id "BOT_MM"
    then record a { bot_market_maker = a.bot_market_maker + 1 }
    else if str_eq f.participant_id "BOT_MOM"
    then record a { bot_momentum = a.bot_momentum + 1 }
    else if str_eq f.participant_id "BOT_MR"
    then record a { bot_mean_reversion = a.bot_mean_reversion + 1 }
    else if str_eq f.participant_id "BOT_NOISE"
    then record a { bot_noise = a.bot_noise + 1 }
    else if str_eq f.participant_id "BOT_SNIPER"
    then record a { bot_sniper = a.bot_sniper + 1 }
    else a

unfoldable pub count_fills : List Fill → BotActivity → BotActivity
unfolding count_fill
count_fills [] a = a
count_fills (f ∷ fs) a = count_fills fs (count_fill f a)

-- `bots.forEach(b => b.onFill(fill))`: of the five bots only the market maker acts on it.
unfoldable pub notify : List Fill → MarketMaker → MarketMaker
notify [] bot = bot
notify (f ∷ fs) bot = notify fs (on_fill f bot)

-- The profit at the mid price.
unfoldable pub mark : Lob → Account → ℤ
mark lob a = a.cash +ℤ a.position *ℤ mid lob -ℤ starting_cash
