-- ===== src/Tests/Lob.antt =====
-- The order book on a small example: two asks, one of them shared by two makers, and a bid.
use vidhi_trading_platform.Prelude.{
  true, ◌+◌, ◌≡◌, refl, [], ◌∷◌, some, map, All, arith, pos, ◌+ℤ◌, ◌-ℤ◌, ◌≤ℤ◌, min_ℤ,
}
use vidhi_trading_platform.Lob.Types.{buy, sell, Level, Book, Lob, price_key, tick_size, empty_lob}
use vidhi_trading_platform.Lob.Book.{resting, keys, get_level, delete_level}
use vidhi_trading_platform.Lob.Orders.{own_book, add_order, cancel_order, find_order, rebuild_best}
use vidhi_trading_platform.Lob.Orders.Keep.{add_order_keeps}
use vidhi_trading_platform.Lob.Orders.Cancel.{
  IsCancelled, cancel_order_found, cancel_order-add_order,
}
use vidhi_trading_platform.Lob.Market.{market_order, match_orders}
use vidhi_trading_platform.Lob.Market.Matching.{sum_fills}
use vidhi_trading_platform.Lob.Market.Exhaust.{market_order_fills, market_order_exhausts}
use vidhi_trading_platform.Lob.Market.Priority.{
  IsPriceOrdered, market_order-IsPriceOrdered, match_orders_fifo, served, maker_and_volume,
}
use vidhi_trading_platform.Lob.Sound.{IsSound, IsSoundLob}
use vidhi_trading_platform.Lob.Best.{IsCovered}
use vidhi_trading_platform.Lob.Best.Stale.{stale_best_bid}
use vidhi_trading_platform.Lob.Views.{view_best_bid}
use vidhi_trading_platform.Sim.Types.{cancel}
use vidhi_trading_platform.Sim.Custom.{execute_all_by}
use vidhi_trading_platform.Sim.Custom.Owned.{execute_all_by_foreign}

abbrev low_ask : Level
low_ask = record {
  volume = pos 30;
  orders =
      record { id = 1; participant_id = "ann"; volume = pos 10 }
      ∷ record { id = 2; participant_id = "bob"; volume = pos 20 }
      ∷ [];
}

abbrev high_ask : Level
high_ask = record {
  volume = pos 50;
  orders = record { id = 3; participant_id = "BOT_MM"; volume = pos 50 } ∷ [];
}

abbrev only_bid : Level
only_bid = record {
  volume = pos 40;
  orders = record { id = 4; participant_id = "cat"; volume = pos 40 } ∷ [];
}

abbrev asks : Book
asks = (pos 15_000_200, high_ask) ∷ (pos 15_000_100, low_ask) ∷ []

abbrev bids : Book
bids = (pos 14_999_900, only_bid) ∷ []

abbrev book : Lob
book = record {
  bids = bids;
  asks = asks;
  next_order_id = 5;
  last_trade_price = pos 15_000_000;
  last_trade_volume = pos 0;
  trade_history = [];
  best_bid = some (pos 14_999_900);
  best_ask = some (pos 15_000_100);
  current_tick = 0;
  base_price = pos 15_000_000;
}

book-IsSoundLob : IsSoundLob book
unfolding ◌+ℤ◌ get_level
book-IsSoundLob = ground arith

book-IsCovered : IsCovered book
unfolding keys
book-IsCovered = omega arith

-- A buyer of 35 takes all of the low ask and 5 of the high one.
buys_across_levels :
    map (λ f. f.volume) (market_order buy (pos 35) "dan" book).fills ≡ pos 10 ∷ pos 20 ∷ pos 5 ∷ []
unfolding market_order ◌-ℤ◌ ◌+ℤ◌ min_ℤ get_level delete_level
buys_across_levels = refl

market_order_fills_example :
    let e = market_order buy (pos 35) "dan" book in
    let before = resting asks in
    (sum_fills e.fills ≡ min_ℤ (pos 35) before)
    × All (λ f. pos 0 ≤ℤ f.volume) e.fills
    × (resting (own_book sell e.lob) +ℤ sum_fills e.fills ≡ before)
    × IsSound 5 (own_book sell e.lob)
    × (own_book buy e.lob ≡ bids)
market_order_fills_example =
    market_order_fills buy (pos 35) "dan" book book-IsSoundLob.1 (omega arith)

market_order_exhausts_example : own_book sell (market_order buy (pos 100) "dan" book).lob ≡ []
unfolding market_order ◌-ℤ◌ ◌+ℤ◌ min_ℤ get_level delete_level
market_order_exhausts_example =
    market_order_exhausts buy (pos 100) "dan" book book-IsSoundLob.1 (omega arith)

market_order-IsPriceOrdered_example :
    IsPriceOrdered buy (market_order buy (pos 35) "dan" book).fills
market_order-IsPriceOrdered_example = market_order-IsPriceOrdered buy (pos 35) "dan" book

match_orders_fifo_example :
    let fills = (match_orders buy "dan" (pos 15_000_100) low_ask.orders (pos 30) (pos 15)).fills in
    map maker_and_volume fills ≡ ("ann", pos 10) ∷ ("bob", pos 5) ∷ []
unfolding served ◌-ℤ◌
match_orders_fifo_example =
    match_orders_fifo buy "dan" (pos 15_000_100) low_ask.orders (pos 30) (pos 15)

add_order_keeps_example :
    let (i, lob') = add_order buy (pos 14_999_949) (pos 7) "dan" book in
    (i ≡ 5)
    × (lob'.next_order_id ≡ 5 + 1)
    × IsSoundLob lob'
    × (resting (own_book buy lob') ≡ resting bids +ℤ pos 7)
    × (own_book sell lob' ≡ asks)
add_order_keeps_example =
    add_order_keeps buy (pos 14_999_949) (pos 7) "dan" book book-IsSoundLob (omega arith)

cancel_order_found_example :
    ((cancel_order sell (pos 15_000_100) 2 book).0 ≡ true)
    × IsCancelled sell
        (record { id = 2; participant_id = "bob"; volume = pos 20 })
        book
        (cancel_order sell (pos 15_000_100) 2 book).1
unfolding price_key get_level find_order
cancel_order_found_example =
    cancel_order_found sell (pos 15_000_100) 2 book {l = low_ask} book-IsSoundLob refl refl

cancel_order-add_order_example :
    let (i, placed) = add_order buy (pos 14_999_900) (pos 7) "dan" book in
    let (done, lob') = cancel_order buy (pos 14_999_900) i placed in
    (done ≡ true)
    × IsSoundLob lob'
    × (resting (own_book buy lob') ≡ resting bids)
    × (own_book sell lob' ≡ asks)
cancel_order-add_order_example =
    cancel_order-add_order buy (pos 14_999_900) (pos 7) "dan" book book-IsSoundLob (omega arith)

stale_best_bid_example :
    let after =
      (add_order buy
        (pos 14_990_000)
        (pos 7)
        "dan"
        (rebuild_best (empty_lob (pos 15_000_000)))).1 in
    (keys after.bids ≡ price_key (pos 14_990_000) ∷ [])
    × (view_best_bid after ≡ pos 15_000_000 -ℤ tick_size)
unfolding empty_lob price_key ◌-ℤ◌
stale_best_bid_example =
    stale_best_bid (pos 14_990_000) (pos 7) "dan" (empty_lob (pos 15_000_000)) refl (omega arith)

-- The first ask is ann's and the bid is cat's.
execute_all_by_foreign_example : execute_all_by "MY_BOT" (cancel 1 ∷ cancel 4 ∷ []) book ≡ book
execute_all_by_foreign_example = execute_all_by_foreign "MY_BOT" (1 ∷ 4 ∷ []) book (
  (((refl, tt), tt), ((refl, tt), ((refl, (refl, tt)), tt))),
  ((((refl, tt), tt), ((refl, tt), ((refl, (refl, tt)), tt))), tt),
)
