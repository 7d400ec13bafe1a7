-- ===== src/Sim/Types.antt =====
-- The variables of the simulation and what comes in from outside.
use vidhi_trading_platform.Prelude.{ℕ, String, Bool, List, Option, ℤ, pos}
use vidhi_trading_platform.Lob.Types.{Side, Fill, Lob}
use vidhi_trading_platform.Bots.Signal.{Signal, Ratio}
use vidhi_trading_platform.Bots.MarketMaker.{MarketMaker}
use vidhi_trading_platform.Bots.Momentum.{MomentumBot}
use vidhi_trading_platform.Bots.MeanReversion.{MeanReversionBot}
use vidhi_trading_platform.Bots.Noise.{NoiseTrader}

abbrev pub contestant_name : String
contestant_name = "CONTESTANT"

-- 100_000 dollars, in units.
abbrev pub starting_cash : ℤ
starting_cash = pos 1_000_000_000

abbrev pub position_limit : ℤ
position_limit = pos 1000

abbrev pub tick_batch : ℕ
tick_batch = 500

-- `this.state` of `ContestantRunner`, the slots that the contestant's code may write.
pub record Slots : Type 0 where
  pub ema_fast : ℤ
  pub ema_slow : ℤ
  pub tick_count : ℤ
  pub my_position : ℤ
  pub s0 : ℤ
  pub s1 : ℤ
  pub s2 : ℤ
  pub s3 : ℤ
  pub s4 : ℤ
  pub s5 : ℤ
  pub s6 : ℤ
  pub s7 : ℤ

-- The calls of `orders` that the contestant's code makes.
pub data Call : Type 0 where
  limit_buy limit_sell : ℤ → ℤ → Call
  market_buy market_sell : ℤ → Call
  cancel : ℕ → Call

-- The `state` argument of the contestant's code, less its slots.
pub record View : Type 0 where
  pub bid_price : ℤ
  pub ask_price : ℤ
  pub mid_price : ℤ
  pub spread : ℤ
  pub bid_volume : ℤ
  pub ask_volume : ℤ
  pub last_trade_price : ℤ
  pub underlying_signal : ℤ
  pub position : ℤ
  pub cash : ℤ
  pub pnl : ℤ
  pub fills : List Fill

-- What a run of the contestant's code comes to: the calls that it made, its slots, and whether it
-- threw after them.
pub record Outcome : Type 0 where
  pub calls : List Call
  pub slots : Slots
  pub threw : Bool

-- What the simulation takes from outside: the compiled code of the contestant, the nanoseconds that
-- the clock measures for a tick, the dataset, the generated prices past its end, and the length.
pub record Environment : Type 0 where
  pub fn : Option (View → Slots → Outcome)
  pub tick_ns : ℕ → ℕ
  pub dataset_prices : Option (List ℤ)
  pub gbm : ℕ → Signal
  pub max_ticks : ℕ

pub record BotActivity : Type 0 where
  pub bot_market_maker : ℕ
  pub bot_momentum : ℕ
  pub bot_mean_reversion : ℕ
  pub bot_noise : ℕ
  pub bot_sniper : ℕ

-- An entry of `contestantOrdersQueue`.
pub record Queued : Type 0 where
  pub side : Side
  pub price : ℤ
  pub id : ℕ

-- A point of a chart.
pub record Point : Type 0 where
  pub time : ℕ
  pub value : ℤ

-- A row of the activities log, less its constant columns.
pub record LogRow : Type 0 where
  pub timestamp : ℕ
  pub bid_price : ℤ
  pub ask_price : ℤ
  pub mid_price : ℤ
  pub profit_and_loss : ℤ

pub record Sim : Type 0 where
  pub is_running : Bool
  pub tick_count : ℕ
  pub last_fv : ℤ
  pub lob : Lob
  pub market_maker : MarketMaker
  pub momentum : MomentumBot
  pub mean_reversion : MeanReversionBot
  pub noise : NoiseTrader
  pub sniper : Ratio
  pub slots : Slots
  pub position : ℤ
  pub cash : ℤ
  pub pnl : ℤ
  pub total_fills : ℕ
  pub orders_queue : List Queued
  pub bot_activity : BotActivity
  pub pnl_history : List Point
  pub latency_history : List ℕ
  pub volume_history : List Point
  pub log_rows : List LogRow
