-- ===== src/Lob/Best/Stale.antt =====
-- Where the best prices go wrong: a `_rebuildBest` that finds a side empty leaves a price there that
-- no order has, and an order at a worse price does not replace it.
use vidhi_trading_platform.Prelude.{false, String, ◌≡◌, refl, [], ◌∷◌, some, arith, ℤ, ◌-ℤ◌, ◌<ℤ◌}
use vidhi_trading_platform.Lob.Types.{buy, Lob, price_key, tick_size}
use vidhi_trading_platform.Lob.Book.{put_level, max_key, keys, get_level}
use vidhi_trading_platform.Lob.Orders.{above, rebuild_best, add_order}
use vidhi_trading_platform.Lob.Views.{view_best_bid}

-- On an empty side of bids, `_rebuildBest` and then one bid below the base price less a tick leave
-- `bestBid` at the base price less a tick, although the only bid is at a lower price.
pub stale_best_bid :
    (price volume : ℤ) (who : String) (lob : Lob)
    → lob.bids ≡ []
    → price_key price <ℤ lob.base_price -ℤ tick_size
    → let after = (add_order buy price volume who (rebuild_best lob)).1 in
      (keys after.bids ≡ price_key price ∷ []) × (view_best_bid after ≡ lob.base_price -ℤ tick_size)
unfolding add_order rebuild_best view_best_bid keys put_level max_key get_level
stale_best_bid price volume who lob e h =
    let k = price_key price in
    let worse : above k (some (lob.base_price -ℤ tick_size)) ≡ false = ground arith in
    rw e (rw worse (refl, refl))
