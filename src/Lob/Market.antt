-- ===== src/Lob/Market.antt =====
-- `marketOrder`: the loop over the sorted prices and, within a price, over the orders in the order
-- in which they came.
pub mod Matching
pub mod Step
pub mod Conserve
pub mod Sorted
pub mod Priority
pub mod Exhaust
use vidhi_trading_platform.Prelude.{
  true, false, ℕ, String, Bool, List, [], ◌∷◌, ◌++◌, Option, none, some, push_capped, ℤ, pos, ◌+ℤ◌,
  ◌-ℤ◌, ltb_ℤ, leb_ℤ, min_ℤ, if◌then◌else◌,
}
use vidhi_trading_platform.Lob.Types.{
  Side, buy, sell, Order, Level, Book, Fill, Trade, Lob, price_key,
}
use vidhi_trading_platform.Lob.Book.{get_level, put_level, delete_level, keys, sort_by}
use vidhi_trading_platform.Lob.Orders.{own_book, with_own_book, rebuild_best}

abbrev pub opposite : Side → Side
opposite buy = sell
opposite sell = buy

-- What the inner loop leaves: the level's orders and volume, what remains to fill, and the fills.
pub record Matched : Type 0 where
  pub orders : List Order
  pub level_volume : ℤ
  pub remaining : ℤ
  pub fills : List Fill

-- The inner loop, over the orders of one level.
unfoldable pub match_orders : Side → String → ℤ → List Order → ℤ → ℤ → Matched
match_orders side who price [] volume remaining = record {
  orders = [];
  level_volume = volume;
  remaining = remaining;
  fills = [];
}
match_orders side who price (o ∷ os) volume remaining =
    let fill_volume = min_ℤ o.volume remaining in
    let left = o.volume -ℤ fill_volume in
    let rest = match_orders side who price os (volume -ℤ fill_volume) (remaining -ℤ fill_volume) in
    let fill : Fill = record {
      price = price;
      volume = fill_volume;
      participant_id = who;
      maker_participant_id = o.participant_id;
      side = side;
    } in
    if leb_ℤ remaining (pos 0)
    then record { orders = o ∷ os; level_volume = volume; remaining = remaining; fills = [] }
    else record {
      orders = if leb_ℤ left (pos 0) then rest.orders else record o { volume = left } ∷ rest.orders;
      level_volume = rest.level_volume;
      remaining = rest.remaining;
      fills = fill ∷ rest.fills;
    }

-- The book-keeping of one fill: the last trade and the history of twenty.
unfoldable pub record_trade : Lob → Fill → Lob
unfolding push_capped
record_trade lob f = record lob {
  last_trade_price = f.price;
  last_trade_volume = f.volume;
  trade_history =
      push_capped 20 lob.trade_history
        (record { price = f.price; volume = f.volume; side = f.side; tick = lob.current_tick });
}

unfoldable pub record_trades : List Fill → Lob → Lob
unfolding record_trade
record_trades [] lob = lob
record_trades (f ∷ fs) lob = record_trades fs (record_trade lob f)

-- One price: its orders are matched, and the level is stored or, when it is used up, deleted.
unfoldable pub match_level : Side → String → ℤ → Level → ℤ → Lob → Matched × Lob
unfolding match_orders record_trades rebuild_best
match_level side who price level remaining lob =
    let m = match_orders side who price level.orders level.volume remaining in
    let traded = record_trades m.fills lob in
    let book = own_book (opposite side) traded in
    let left : Level = record { volume = m.level_volume; orders = m.orders } in
    (
      m,
      if leb_ℤ m.level_volume (pos 0)
          then rebuild_best (with_own_book (opposite side) (delete_level price book) traded)
          else with_own_book (opposite side) (put_level price left book) traded,
    )

pub record Executed : Type 0 where
  pub fills : List Fill
  pub remaining : ℤ
  pub lob : Lob

-- The outer loop, over the sorted prices. `book.get(price)` always finds a level, since the prices
-- are the keys of the book and only the price at hand is deleted; the model passes over a price
-- that has none.
unfoldable pub match_prices : Side → String → List ℤ → ℤ → Lob → Executed
unfolding match_level
match_prices side who [] remaining lob = record { fills = []; remaining = remaining; lob = lob }
match_prices side who (p ∷ ps) remaining lob =
    let rest = match_prices side who ps in
    elim (leb_ℤ remaining (pos 0)) [
      | true ↦ record { fills = []; remaining = remaining; lob = lob }
      | false ↦ elim (get_level p (own_book (opposite side) lob)) [
        | none ↦ rest remaining lob
        | some level ↦
            let (m, lob') = match_level side who p level remaining lob in
            let e = rest m.remaining lob' in
            record { fills = m.fills ++ e.fills; remaining = e.remaining; lob = e.lob }
      ]
    ]

-- The lowest ask first for a buyer, the highest bid first for a seller.
abbrev pub better : Side → ℤ → ℤ → Bool
better buy a b = ltb_ℤ a b
better sell a b = ltb_ℤ b a

abbrev pub sorted_prices : Side → Lob → List ℤ
sorted_prices side lob = sort_by (better side) (keys (own_book (opposite side) lob))

-- `marketOrder`, with what remains of its local `remaining`.
unfoldable pub market_order : Side → ℤ → String → Lob → Executed
unfolding match_prices sort_by keys
market_order side volume who lob = match_prices side who (sorted_prices side lob) volume lob
