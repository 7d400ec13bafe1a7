-- ===== src/Lob/Types.antt =====
-- The data of `PersistentLOB`: orders, price levels, fills, trades and the book itself.
-- A price is a whole number of units of 0.0001 dollars, so `TICK_SIZE` (0.01) is 100 units.
-- A volume is a signed whole number, as nothing in the source keeps a negative one out.
use vidhi_trading_platform.Prelude.{ℕ, String, List, [], Option, none, ℤ, pos, ◌*ℤ◌, round_div}

abbrev pub tick_size : ℤ
tick_size = pos 100

pub data Side : Type 0 where
  buy sell : Side

pub record Order : Type 0 where
  pub id : ℕ
  pub participant_id : String
  pub volume : ℤ

pub record Level : Type 0 where
  pub volume : ℤ
  pub orders : List Order

-- One side of the book: a `Map` from price to level, in insertion order.
abbrev pub Book : Type 0
Book = List (ℤ × Level)

pub record Fill : Type 0 where
  pub price : ℤ
  pub volume : ℤ
  pub participant_id : String
  pub maker_participant_id : String
  pub side : Side

pub record Trade : Type 0 where
  pub price : ℤ
  pub volume : ℤ
  pub side : Side
  pub tick : ℕ

-- `best_bid` is `_bestBid`, with `none` for -Infinity; `best_ask` is `_bestAsk`, with `none` for
-- Infinity. `base_price` is the module's `BASE_PRICE`, which stays as it is while a book is in use.
pub record Lob : Type 0 where
  pub bids : Book
  pub asks : Book
  pub next_order_id : ℕ
  pub last_trade_price : ℤ
  pub last_trade_volume : ℤ
  pub trade_history : List Trade
  pub best_bid : Option ℤ
  pub best_ask : Option ℤ
  pub current_tick : ℕ
  pub base_price : ℤ

-- The constructor.
unfoldable pub empty_lob : ℤ → Lob
empty_lob base = record {
  bids = [];
  asks = [];
  next_order_id = 1;
  last_trade_price = base;
  last_trade_volume = pos 0;
  trade_history = [];
  best_bid = none;
  best_ask = none;
  current_tick = 0;
  base_price = base;
}

-- `_priceKey`: the price on the tick grid that is nearest to `p`.
unfoldable pub price_key : ℤ → ℤ
unfolding round_div ◌*ℤ◌
price_key p = round_div p 100 *ℤ tick_size
