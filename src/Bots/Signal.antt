-- ===== src/Bots/Signal.antt =====
-- The price signal that bots read, and the fractions that stand for the source's decimal numbers.
-- Doubles are taken as the exact numbers that they are written for; rounding of a double's last
-- bits is not modelled.
use vidhi_trading_platform.Prelude.{ℕ, Bool, ℤ, pos, ◌*ℤ◌, eqb_ℤ, round_div}

-- `fairValue`, `volatility` and `isNewsEvent`, prices in units of 0.0001 dollars.
pub record Signal : Type 0 where
  pub fair_value : ℤ
  pub volatility : ℤ
  pub is_news_event : Bool

-- `num / den`, for a `den` that is not 0.
pub record Ratio : Type 0 where
  pub num : ℤ
  pub den : ℕ

-- `scale === 0`
abbrev pub is_zero : Ratio → Bool
is_zero r = eqb_ℤ r.num (pos 0)

-- `Math.round(k * scale)`
unfoldable pub scaled : ℤ → Ratio → ℤ
unfolding round_div ◌*ℤ◌
scaled k r = round_div (k *ℤ r.num) r.den
