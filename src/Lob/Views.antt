-- ===== src/Lob/Views.antt =====
-- What the bots, the contestant and the page read from the book: `bestBid`, `bestAsk`, `spread`,
-- `mid`, `depth` and `snapshot`.
use vidhi_trading_platform.Prelude.{
  ℕ, List, [], ◌∷◌, Option, none, some, map, take, ℤ, ◌+ℤ◌, ◌-ℤ◌, floor_div,
}
use vidhi_trading_platform.Lob.Types.{Side, buy, sell, Lob, tick_size}
use vidhi_trading_platform.Lob.Book.{get_level, keys, sort_by, volume_of}
use vidhi_trading_platform.Lob.Orders.{own_book}
use vidhi_trading_platform.Lob.Market.{better, opposite}

abbrev pub finite_or : Option ℤ → ℤ → ℤ
finite_or none d = d
finite_or (some p) d = p

-- `bestBid`: the base price less a tick for no bids, else `_bestBid`. `_bestBid` is -Infinity only
-- while there are no bids (`Lob.Best`); the model then falls back as for no bids. So for `bestAsk`.
unfoldable pub view_best_bid : Lob → ℤ
view_best_bid lob = elim lob.bids [
  | [] ↦ lob.base_price -ℤ tick_size
  | _ ∷ _ ↦ finite_or lob.best_bid (lob.base_price -ℤ tick_size)
]

unfoldable pub view_best_ask : Lob → ℤ
view_best_ask lob = elim lob.asks [
  | [] ↦ lob.base_price +ℤ tick_size
  | _ ∷ _ ↦ finite_or lob.best_ask (lob.base_price +ℤ tick_size)
]

unfoldable pub spread : Lob → ℤ
unfolding view_best_bid view_best_ask
spread lob = view_best_ask lob -ℤ view_best_bid lob

-- `mid`, in whole units: exact where the two prices add up to an even number, as all prices on the
-- tick grid do.
unfoldable pub mid : Lob → ℤ
unfolding view_best_bid view_best_ask
mid lob = floor_div (view_best_bid lob +ℤ view_best_ask lob) 2

pub record DepthRow : Type 0 where
  pub price : ℤ
  pub volume : ℤ

-- `depth(side, levels)`, over one side of the book.
unfoldable pub depth : Side → ℕ → Lob → List DepthRow
depth side levels lob =
    let book = own_book side lob in
    map (λ p. record { price = p; volume = volume_of (get_level p book) })
      (take levels (sort_by (better (opposite side)) (keys book)))

pub record Snapshot : Type 0 where
  pub bid_price : ℤ
  pub ask_price : ℤ
  pub mid_price : ℤ
  pub spread : ℤ
  pub last_trade_price : ℤ
  pub last_trade_volume : ℤ
  pub bid_depth : List DepthRow
  pub ask_depth : List DepthRow

unfoldable pub snapshot : Lob → Snapshot
unfolding view_best_bid view_best_ask spread mid depth
snapshot lob = record {
  bid_price = view_best_bid lob;
  ask_price = view_best_ask lob;
  mid_price = mid lob;
  spread = spread lob;
  last_trade_price = lob.last_trade_price;
  last_trade_volume = lob.last_trade_volume;
  bid_depth = depth buy 5 lob;
  ask_depth = depth sell 5 lob;
}
