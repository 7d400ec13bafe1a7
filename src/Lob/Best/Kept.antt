-- ===== src/Lob/Best/Kept.antt =====
-- `cancelOrder` and `marketOrder` keep the best prices at least as good as every price.
use vidhi_trading_platform.Prelude.{
  ℕ, String, ◌≡◌, inl, inr, List, [], ◌∷◌, some, ℤ, pos, leb_ℤ, Bool-cases, Option-cases,
}
use vidhi_trading_platform.Lob.Types.{Side, buy, sell, Level, Fill, Lob, price_key}
use vidhi_trading_platform.Lob.Book.{get_level, put_level, delete_level}
use vidhi_trading_platform.Lob.Orders.{
  own_book, with_own_book, cancel_order, store_cancelled, find_order, is_best, without,
}
use vidhi_trading_platform.Lob.Market.{
  match_orders, match_level, match_prices, market_order, opposite, record_trade, record_trades,
  sorted_prices,
}
use vidhi_trading_platform.Lob.Market.Conserve.{
  match_prices_stop, match_prices_missing, match_prices_found,
}
use vidhi_trading_platform.Lob.Market.Step.{record_trades-own_book}
use vidhi_trading_platform.Lob.Best.{
  Covers, IsCovered, All-put_level, All-delete_level, All-found, rebuild_best-IsCovered,
}

-- Replacing a level that is there, or dropping one, keeps what is covered.
put_found-IsCovered :
    (side : Side) (k : ℤ) (old level : Level) (lob : Lob)
    → get_level k (own_book side lob) ≡ some old
    → IsCovered lob
    → IsCovered (with_own_book side (put_level k level (own_book side lob)) lob)
put_found-IsCovered buy k old level lob found c =
    let P = Covers buy lob.best_bid in
    (All-put_level P k level lob.bids (All-found P k old lob.bids found c.0) c.0, c.1)
put_found-IsCovered sell k old level lob found c =
    let P = Covers sell lob.best_ask in
    (c.0, All-put_level P k level lob.asks (All-found P k old lob.asks found c.1) c.1)

delete-IsCovered :
    (side : Side) (k : ℤ) (lob : Lob)
    → IsCovered lob
    → IsCovered (with_own_book side (delete_level k (own_book side lob)) lob)
delete-IsCovered buy k lob c = (All-delete_level (Covers buy lob.best_bid) k lob.bids c.0, c.1)
delete-IsCovered sell k lob c = (c.0, All-delete_level (Covers sell lob.best_ask) k lob.asks c.1)

store_cancelled-IsCovered :
    (side : Side) (k : ℤ) (old level : Level) (lob : Lob)
    → get_level k (own_book side lob) ≡ some old
    → IsCovered lob
    → IsCovered (store_cancelled side k level lob)
unfolding store_cancelled
store_cancelled-IsCovered side k old level lob found c =
    elim (Bool-cases (leb_ℤ level.volume (pos 0))) [
      | inl e ↦ elim (Bool-cases (is_best side k lob)) [
        | inl b ↦
            rw (e, b)
              (rebuild_best-IsCovered (with_own_book side (delete_level k (own_book side lob)) lob))
        | inr b ↦ rw (e, b) (delete-IsCovered side k lob c)
      ]
      | inr e ↦ rw e (put_found-IsCovered side k old level lob found c)
    ]

-- `cancelOrder` keeps both best prices at least as good as every price of their side.
pub cancel_order-IsCovered :
    (side : Side) (price : ℤ) (i : ℕ) (lob : Lob)
    → IsCovered lob
    → IsCovered (cancel_order side price i lob).1
unfolding cancel_order
cancel_order-IsCovered side price i lob c =
    let k = price_key price in
    elim (Option-cases (get_level k (own_book side lob))) [
      | inl e ↦ rw (e, cancel_order) c
      | inr (l, e) ↦ elim (Option-cases (find_order i l.orders)) [
        | inl f ↦ rw (e, cancel_order) (rw (f, cancel_order) c)
        | inr (o, f) ↦
            rw (e, cancel_order)
              (rw (f, cancel_order) (store_cancelled-IsCovered side k l (without i o l) lob e c))
      ]
    ]

record_trades-IsCovered :
    (fs : List Fill) (lob : Lob) → IsCovered lob → IsCovered (record_trades fs lob)
unfolding record_trades
record_trades-IsCovered [] lob c = c
record_trades-IsCovered (f ∷ fs) lob c = record_trades-IsCovered fs (record_trade lob f) c

match_level-IsCovered :
    (side : Side) (who : String) (p : ℤ) (l : Level) (r : ℤ) (lob : Lob)
    → get_level p (own_book (opposite side) lob) ≡ some l
    → IsCovered lob
    → IsCovered (match_level side who p l r lob).1
unfolding match_level
match_level-IsCovered side who p l r lob found c =
    let m = match_orders side who p l.orders l.volume r in
    let traded = record_trades m.fills lob in
    let same = record_trades-own_book (opposite side) m.fills lob in
    elim (Bool-cases (leb_ℤ m.level_volume (pos 0))) [
      | inl e ↦ rw e (
          rebuild_best-IsCovered (
            with_own_book (opposite side) (delete_level p (own_book (opposite side) traded))
              traded))
      | inr e ↦ rw e (
          put_found-IsCovered (opposite side) p l _ traded (rw same.0 found)
            (record_trades-IsCovered m.fills lob c))
    ]

match_prices-IsCovered :
    (side : Side) (who : String) (ps : List ℤ) (r : ℤ) (lob : Lob)
    → IsCovered lob
    → IsCovered (match_prices side who ps r lob).lob
unfolding match_prices
match_prices-IsCovered side who [] r lob c = c
match_prices-IsCovered side who (p ∷ ps) r lob c = elim (Bool-cases (leb_ℤ r (pos 0))) [
  | inl stop ↦ rw (match_prices_stop side who p ps r lob stop) c
  | inr go ↦ elim (Option-cases (get_level p (own_book (opposite side) lob))) [
    | inl missing ↦
        rw (match_prices_missing side who p ps r lob go missing)
          (match_prices-IsCovered side who ps r lob c)
    | inr (l, found) ↦
        rw (match_prices_found side who p l ps r lob go found) (
          match_prices-IsCovered side who ps _ _ (match_level-IsCovered side who p l r lob found c))
  ]
]

-- `marketOrder` keeps both best prices at least as good as every price of their side.
pub market_order-IsCovered :
    (side : Side) (volume : ℤ) (who : String) (lob : Lob)
    → IsCovered lob
    → IsCovered (market_order side volume who lob).lob
unfolding market_order
market_order-IsCovered side volume who lob c =
    match_prices-IsCovered side who (sorted_prices side lob) volume lob c
