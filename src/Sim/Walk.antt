-- ===== src/Sim/Walk.antt =====
-- `PriceSignal`: the random walk of the prices where there is no dataset, with its generator of
-- `NoiseTrader`'s kind. What it makes of the draws, with logarithms, cosines and the mean reversion, is a
-- parameter; limits are exact for a base price of whole thousandths of dollars.
pub mod Bounds
use vidhi_trading_platform.Prelude.{
  ℕ, ◌%◌, ◌==◌, Bool, true, false, not, List, [], ◌∷◌, if◌then◌else◌, ℤ, pos, ◌+ℤ◌, ◌*ℤ◌, min_ℤ,
  max_ℤ, eqb_ℤ, round_div,
}
use vidhi_trading_platform.Bots.Signal.{Signal}
use vidhi_trading_platform.Bots.Noise.{xorshift}

-- `price` and `rng`
pub record Walk : Type 0 where
  pub price : ℤ
  pub rng : ℕ

-- `randn() * 2.0` of the two draws; the move of the price for the base price, the price and two draws,
-- `drift + vol * price * randn()`; and `vol * price`.
pub record Moves : Type 0 where
  pub news : ℕ → ℕ → ℤ
  pub step : ℤ → ℤ → ℕ → ℕ → ℤ
  pub volatility : ℤ → ℤ

unfoldable pub low_limit : ℤ → ℤ
unfolding round_div ◌*ℤ◌
low_limit base = round_div (pos 7 *ℤ base) 10

unfoldable pub high_limit : ℤ → ℤ
unfolding round_div ◌*ℤ◌
high_limit base = round_div (pos 13 *ℤ base) 10

-- `Math.max(BASE_PRICE * 0.7, Math.min(BASE_PRICE * 1.3, price))`
unfoldable pub clamp : ℤ → ℤ → ℤ
unfolding low_limit high_limit min_ℤ max_ℤ
clamp base price = max_ℤ (low_limit base) (min_ℤ (high_limit base) price)

-- The news of a tick, the price before its limits, and the generator: the news draws first, every ten
-- thousand ticks.
unfoldable pub move_price : Moves → ℤ → ℕ → Walk → ℤ × ℤ × ℕ
unfolding xorshift ◌+ℤ◌
move_price m base tick w =
    let has_news = tick % 10_000 == 0 in
    let n1 = xorshift w.rng in
    let n2 = xorshift n1 in
    let news = if has_news then m.news n1 n2 else pos 0 in
    let rng = if has_news then n2 else w.rng in
    let r1 = xorshift rng in
    let r2 = xorshift r1 in (news, w.price +ℤ m.step base w.price r1 r2 +ℤ news, r2)

-- `next`
unfoldable pub next : Moves → ℤ → ℕ → Walk → Signal × Walk
unfolding clamp move_price
next m base tick w =
    let (news, moved, rng) = move_price m base tick w in
    let price = clamp base moved in
    (
      record {
        fair_value = price;
        volatility = m.volatility price;
        is_news_event = not (eqb_ℤ news (pos 0));
      },
      record { price = price; rng = rng },
    )

-- The signals of ticks, one after the other.
unfoldable pub signals : Moves → ℤ → List ℕ → Walk → List Signal
unfolding next
signals m base [] w = []
signals m base (t ∷ ts) w = let (s, w') = next m base t w in s ∷ signals m base ts w'

-- `_gbm`, which is made once, with the base price that the module begins with.
abbrev pub first_walk : Walk
first_walk = record { price = pos 15_000_000; rng = 42 }
