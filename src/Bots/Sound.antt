-- ===== src/Bots/Sound.antt =====
-- Every bot keeps the book healthy, if its scale is not negative.
use vidhi_trading_platform.Prelude.{
  true, false, ℕ, String, ◌+◌, ◌*◌, inl, inr, List, [], ◌∷◌, Option, none, some, arith, ℤ, pos,
  pos_part, ◌-ℤ◌, ◌≤ℤ◌, ltb, ltb_ℤ, nonneg, pos_mul, round_div_pos, Bool-cases, if◌then◌else◌, Bool,
  floor_div,
}
use vidhi_trading_platform.Lob.Types.{Side, buy, sell, Lob}
use vidhi_trading_platform.Lob.Views.{Snapshot, DepthRow}
use vidhi_trading_platform.Lob.Healthy.{
  IsHealthy, add_order-IsHealthy, cancel_order-IsHealthy, market_order-IsHealthy,
}
use vidhi_trading_platform.Bots.Signal.{Signal, Ratio, scaled, is_zero}
use vidhi_trading_platform.Bots.Ring.{Entry, OrderRing}
use vidhi_trading_platform.Bots.MarketMaker
use vidhi_trading_platform.Bots.MarketMaker.{MarketMaker}
use vidhi_trading_platform.Bots.Momentum
use vidhi_trading_platform.Bots.Momentum.{MomentumBot}
use vidhi_trading_platform.Bots.MeanReversion
use vidhi_trading_platform.Bots.MeanReversion.{MeanReversionBot, place}
use vidhi_trading_platform.Bots.Noise
use vidhi_trading_platform.Bots.Noise.{NoiseTrader}
use vidhi_trading_platform.Bots.Sniper

abbrev pub IsScale : Ratio → Type 0
IsScale r = pos 0 ≤ℤ r.num

scaled_nonneg : (k : ℕ) (r : Ratio) → IsScale r → pos 0 ≤ℤ scaled (pos k) r
unfolding scaled
scaled_nonneg k r h =
    rw (nonneg r.num h, pos_mul k (pos_part r.num), round_div_pos (k * pos_part r.num) r.den)
      (omega arith)

-- One of two healthy books is healthy.
choose-IsHealthy :
    (b : Bool) (x y : Lob) → IsHealthy x → IsHealthy y → IsHealthy (if b then x else y)
choose-IsHealthy true x y h k = h
choose-IsHealthy false x y h k = k

cancel_quote-IsHealthy :
    (side : Side) (price : ℤ) (i : Option ℕ) (lob : Lob)
    → IsHealthy lob
    → IsHealthy (MarketMaker.cancel_quote side price i lob)
unfolding MarketMaker.cancel_quote
cancel_quote-IsHealthy side price none lob h = h
cancel_quote-IsHealthy side price (some i) lob h = cancel_order-IsHealthy side price i lob h

-- The market maker keeps the book healthy.
pub market_maker-IsHealthy :
    (snap : Snapshot) (signal : Signal) (bot : MarketMaker) (lob : Lob)
    → IsScale bot.scale
    → IsHealthy lob
    → IsHealthy (MarketMaker.compute snap signal (bot, lob)).1
unfolding MarketMaker.compute
market_maker-IsHealthy snap signal bot lob s h =
    let free =
      cancel_quote-IsHealthy sell bot.ask_price bot.ask_order_id _
        (cancel_quote-IsHealthy buy bot.bid_price bot.bid_order_id lob h) in
    let v = scaled_nonneg 50 bot.scale s in
    elim (Bool-cases (is_zero bot.scale)) [
      | inl e ↦ rw e free
      | inr e ↦ rw e (
          add_order-IsHealthy sell _ _ MarketMaker.name _
            (add_order-IsHealthy buy _ _ MarketMaker.name _ free v) v)
    ]

-- The momentum bot keeps the book healthy, at any scale: it places no order.
pub momentum-IsHealthy :
    (snap : Snapshot) (bot : MomentumBot) (lob : Lob)
    → IsHealthy lob
    → IsHealthy (Momentum.compute snap (bot, lob)).1
unfolding Momentum.compute
momentum-IsHealthy snap bot lob h = elim (Bool-cases (is_zero bot.scale)) [
  | inl e ↦ rw e h
  | inr e ↦
      let v = scaled (pos 30) bot.scale in
      let bought = choose-IsHealthy _ _ lob (market_order-IsHealthy buy v Momentum.name lob h) h in
      rw e (choose-IsHealthy _ _ _ (market_order-IsHealthy sell v Momentum.name _ bought) bought)
]

cancel_evicted-IsHealthy :
    (side : Side) (e : Option Entry) (lob : Lob)
    → IsHealthy lob
    → IsHealthy (MeanReversion.cancel_evicted side e lob)
unfolding MeanReversion.cancel_evicted
cancel_evicted-IsHealthy side none lob h = h
cancel_evicted-IsHealthy side (some e) lob h = cancel_order-IsHealthy side e.price e.id lob h

pub place-IsHealthy :
    (side : Side) (price volume : ℤ) (who : String) (ring : OrderRing) (lob : Lob)
    → IsHealthy lob
    → pos 0 ≤ℤ volume
    → IsHealthy (place side price volume who ring lob).1
unfolding place
place-IsHealthy side price volume who ring lob h v =
    cancel_evicted-IsHealthy side _ _ (add_order-IsHealthy side price volume who lob h v)

choose_pair-IsHealthy :
    (b : Bool) (x y : OrderRing × Lob)
    → IsHealthy x.1
    → IsHealthy y.1
    → IsHealthy (if b then x else y).1
choose_pair-IsHealthy true x y h k = h
choose_pair-IsHealthy false x y h k = k

-- The mean-reversion bot keeps the book healthy.
pub mean_reversion-IsHealthy :
    (snap : Snapshot) (signal : Signal) (bot : MeanReversionBot) (lob : Lob)
    → IsScale bot.scale
    → IsHealthy lob
    → IsHealthy (MeanReversion.compute snap signal (bot, lob)).1
unfolding MeanReversion.compute
mean_reversion-IsHealthy snap signal bot lob s h = elim (Bool-cases (is_zero bot.scale)) [
  | inl e ↦ rw e h
  | inr e ↦
      let v = scaled_nonneg 80 bot.scale s in
      let who = MeanReversion.name in
      let asked =
        choose_pair-IsHealthy (ltb_ℤ (pos 500) (snap.mid_price -ℤ signal.fair_value)) _
          (bot.ask_ring, lob) (place-IsHealthy sell _ _ who bot.ask_ring lob h v) h in
      rw e (
        choose_pair-IsHealthy (ltb_ℤ (snap.mid_price -ℤ signal.fair_value) (pos 0 -ℤ pos 500)) _
          (bot.bid_ring, _) (place-IsHealthy buy _ _ who bot.bid_ring _ asked v) asked)
]

noise_volume_nonneg : (r : ℕ) (s : Ratio) → IsScale s → pos 0 ≤ℤ Noise.volume_of r s
unfolding Noise.volume_of floor_div
noise_volume_nonneg r s h =
    rw (nonneg s.num h, pos_mul (10 * Noise.full + 30 * r) (pos_part s.num)) (omega arith)

-- The noise trader keeps the book healthy.
pub noise-IsHealthy :
    (snap : Snapshot) (bot : NoiseTrader) (lob : Lob)
    → IsScale bot.scale
    → IsHealthy lob
    → IsHealthy (Noise.compute snap (bot, lob)).1
unfolding Noise.compute
noise-IsHealthy snap bot lob s h =
    let r1 = Noise.xorshift bot.rng in
    elim (Bool-cases (is_zero bot.scale)) [
      | inl e ↦ rw e h
      | inr e ↦ elim (Bool-cases (ltb (6 * Noise.full) (10 * r1))) [
        | inl q ↦ rw (e, q) h
        | inr q ↦
            let v = noise_volume_nonneg (Noise.xorshift (Noise.xorshift r1)) bot.scale s in
            rw (e, q)
              (choose_pair-IsHealthy _ _ _ (place-IsHealthy buy _ _ Noise.name bot.ring lob h v)
                (place-IsHealthy sell _ _ Noise.name bot.ring lob h v))
      ]
    ]

snipe-IsHealthy :
    (side : Side) (rows : List DepthRow) (lob : Lob)
    → IsHealthy lob
    → IsHealthy (Sniper.snipe side rows lob)
unfolding Sniper.snipe
snipe-IsHealthy side [] lob h = h
snipe-IsHealthy side (d ∷ rows) lob h = market_order-IsHealthy side _ Sniper.name lob h

-- The sniper keeps the book healthy.
pub sniper-IsHealthy :
    (snap : Snapshot) (signal : Signal) (scale : Ratio) (lob : Lob)
    → IsHealthy lob
    → IsHealthy (Sniper.compute snap signal scale lob)
unfolding Sniper.compute
sniper-IsHealthy snap signal scale lob h =
    let bought = choose-IsHealthy _ _ lob (snipe-IsHealthy buy snap.ask_depth lob h) h in
    choose-IsHealthy (is_zero scale) lob _ h
      (choose-IsHealthy _ _ _ (snipe-IsHealthy sell snap.bid_depth _ bought) bought)
