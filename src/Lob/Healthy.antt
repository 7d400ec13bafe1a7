-- ===== src/Lob/Healthy.antt =====
-- The invariant of the whole book, and that every operation keeps it: both sides are sound, and no
-- price of a side is better than its running best price.
use vidhi_trading_platform.Prelude.{ℕ, String, inl, inr, ℤ, pos, ◌≤ℤ◌, Option-cases}
use vidhi_trading_platform.Lob.Types.{Side, Lob, price_key}
use vidhi_trading_platform.Lob.Book.{get_level}
use vidhi_trading_platform.Lob.Orders.{own_book, add_order, cancel_order, find_order}
use vidhi_trading_platform.Lob.Orders.Keep.{own-IsSound, sides-IsSoundLob, add_order_keeps}
use vidhi_trading_platform.Lob.Orders.Cancel.{cancel_order_found}
use vidhi_trading_platform.Lob.Market.{match_prices, market_order, opposite, sorted_prices}
use vidhi_trading_platform.Lob.Market.Conserve.{match_prices-IsExecution}
use vidhi_trading_platform.Lob.Best.{IsCovered, add_order-IsCovered}
use vidhi_trading_platform.Lob.Best.Kept.{cancel_order-IsCovered, market_order-IsCovered}
use vidhi_trading_platform.Lob.Sound.{IsSoundLob}

pub record IsHealthy (lob : Lob) : Type 0 where
  pub sound : IsSoundLob lob
  pub covered : IsCovered lob

pub add_order-IsHealthy :
    (side : Side) (price volume : ℤ) (who : String) (lob : Lob)
    → IsHealthy lob
    → pos 0 ≤ℤ volume
    → IsHealthy (add_order side price volume who lob).1
add_order-IsHealthy side price volume who lob h v = record {
  sound = (add_order_keeps side price volume who lob h.sound v).2;
  covered = add_order-IsCovered side price volume who lob h.covered;
}

-- An order that is not there is not cancelled: `cancelOrder` says false and changes nothing.
pub cancel_order-IsSoundLob :
    (side : Side) (price : ℤ) (i : ℕ) (lob : Lob)
    → IsSoundLob lob
    → IsSoundLob (cancel_order side price i lob).1
unfolding cancel_order
cancel_order-IsSoundLob side price i lob s =
    elim (Option-cases (get_level (price_key price) (own_book side lob))) [
      | inl e ↦ rw (e, cancel_order) s
      | inr (l, e) ↦ elim (Option-cases (find_order i l.orders)) [
        | inl f ↦ rw (e, cancel_order) (rw (f, cancel_order) s)
        | inr (o, f) ↦ (cancel_order_found side price i lob {l = l} {o = o} s e f).1.sound
      ]
    ]

pub cancel_order-IsHealthy :
    (side : Side) (price : ℤ) (i : ℕ) (lob : Lob)
    → IsHealthy lob
    → IsHealthy (cancel_order side price i lob).1
cancel_order-IsHealthy side price i lob h = record {
  sound = cancel_order-IsSoundLob side price i lob h.sound;
  covered = cancel_order-IsCovered side price i lob h.covered;
}

pub market_order-IsHealthy :
    (side : Side) (volume : ℤ) (who : String) (lob : Lob)
    → IsHealthy lob
    → IsHealthy (market_order side volume who lob).lob
unfolding market_order
market_order-IsHealthy side volume who lob h =
    let e = match_prices side who (sorted_prices side lob) volume lob in
    let x =
      match_prices-IsExecution side who (sorted_prices side lob) volume lob
        (own-IsSound (opposite side) lob h.sound) in
    record {
      sound =
          sides-IsSoundLob side e.lob (rw (x.own, x.ids) (own-IsSound side lob h.sound))
            (rw x.ids x.sound);
      covered = market_order-IsCovered side volume who lob h.covered;
    }
