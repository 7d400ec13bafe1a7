-- ===== src/Lob/Orders.antt =====
-- `addOrder`, `cancelOrder` and `_rebuildBest`.
pub mod Keep
pub mod Cancel
use vidhi_trading_platform.Prelude.{
  ℕ, ◌+◌, ◌==◌, String, Bool, true, false, List, [], ◌∷◌, ◌++◌, Option, none, some, find, ℤ, pos,
  ◌+ℤ◌, ◌-ℤ◌, ltb_ℤ, leb_ℤ, eqb_ℤ, if◌then◌else◌,
}
use vidhi_trading_platform.Lob.Types.{
  Side, buy, sell, Order, Level, Book, Lob, price_key, tick_size,
}
use vidhi_trading_platform.Lob.Book.{get_level, put_level, delete_level, max_key, min_key}

-- `side === 'buy' ? this.bids : this.asks`
abbrev pub own_book : Side → Lob → Book
own_book buy lob = lob.bids
own_book sell lob = lob.asks

abbrev pub with_own_book : Side → Book → Lob → Lob
with_own_book buy b lob = record lob { bids = b }
with_own_book sell b lob = record lob { asks = b }

abbrev pub or_else : Option ℤ → ℤ → Option ℤ
or_else none d = some d
or_else (some p) d = some p

-- `_rebuildBest`
unfoldable pub rebuild_best : Lob → Lob
rebuild_best lob = record lob {
  best_bid = or_else (max_key lob.bids) (lob.base_price -ℤ tick_size);
  best_ask = or_else (min_key lob.asks) (lob.base_price +ℤ tick_size);
}

-- `key > this._bestBid` and `key < this._bestAsk`
abbrev pub above : ℤ → Option ℤ → Bool
above k none = true
above k (some p) = ltb_ℤ p k

abbrev pub below : ℤ → Option ℤ → Bool
below k none = true
below k (some p) = ltb_ℤ k p

-- The last two lines of `addOrder`.
unfoldable pub improve_best : Side → ℤ → Lob → Lob
improve_best buy key lob =
    if above key lob.best_bid then record lob { best_bid = some key } else lob
improve_best sell key lob =
    if below key lob.best_ask then record lob { best_ask = some key } else lob

abbrev pub empty_level : Level
empty_level = record { volume = pos 0; orders = [] }

abbrev pub level_or_empty : Option Level → Level
level_or_empty none = empty_level
level_or_empty (some l) = l

-- The level with one more order at its end.
abbrev pub push_order : Order → Level → Level
push_order o l = record { volume = l.volume +ℤ o.volume; orders = l.orders ++ (o ∷ []) }

-- `addOrder`: the new order's id, and the book that holds it.
unfoldable pub add_order : Side → ℤ → ℤ → String → Lob → ℕ × Lob
unfolding improve_best
add_order side price volume participant lob =
    let key = price_key price in
    let book = own_book side lob in
    let order : Order = record {
      id = lob.next_order_id;
      participant_id = participant;
      volume = volume;
    } in
    let level = push_order order (level_or_empty (get_level key book)) in
    let placed = record (with_own_book side (put_level key level book) lob) {
      next_order_id = lob.next_order_id + 1;
    } in
    (lob.next_order_id, improve_best side key placed)

-- `level.orders.findIndex(o => o.id === orderId)`, as the order found.
unfoldable pub find_order : ℕ → List Order → Option Order
find_order i = find (λ o. o.id == i)

-- `level.orders.splice(idx, 1)`
unfoldable pub remove_order : ℕ → List Order → List Order
remove_order i [] = []
remove_order i (o ∷ os) = if o.id == i then os else o ∷ remove_order i os

-- The level less the order that was found.
abbrev pub without : ℕ → Order → Level → Level
without i o l = record { volume = l.volume -ℤ o.volume; orders = remove_order i l.orders }

-- `key === this._bestBid` and `key === this._bestAsk`
abbrev pub is_best : Side → ℤ → Lob → Bool
is_best buy key lob = elim lob.best_bid [ none ↦ false | some p ↦ eqb_ℤ key p ]
is_best sell key lob = elim lob.best_ask [ none ↦ false | some p ↦ eqb_ℤ key p ]

-- The tail of `cancelOrder`: store the level, or drop it and rebuild the best prices.
unfoldable pub store_cancelled : Side → ℤ → Level → Lob → Lob
unfolding rebuild_best
store_cancelled side key level lob =
    let book = own_book side lob in
    let dropped = with_own_book side (delete_level key book) lob in
    if leb_ℤ level.volume (pos 0)
    then (if is_best side key lob then rebuild_best dropped else dropped)
    else with_own_book side (put_level key level book) lob

-- `cancelOrder`: whether the order was there, and the book without it.
unfoldable pub cancel_order : Side → ℤ → ℕ → Lob → Bool × Lob
unfolding find_order remove_order store_cancelled
cancel_order side price order_id lob =
    let key = price_key price in
    elim (get_level key (own_book side lob)) [
      | none ↦ (false, lob)
      | some level ↦ elim (find_order order_id level.orders) [
        | none ↦ (false, lob)
        | some order ↦
            let rest : Level = record {
              volume = level.volume -ℤ order.volume;
              orders = remove_order order_id level.orders;
            } in
            (true, store_cancelled side key rest lob)
      ]
    ]
