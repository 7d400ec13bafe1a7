-- ===== src/Pages/Metrics.antt =====
-- `calculateMetrics` of the dashboard: what it draws from the history of the profit, less the Sharpe ratio,
-- which takes a square root, and the rounding for display.
pub mod Largest
use vidhi_trading_platform.Prelude.{
  ℕ, suc, Bool, String, List, [], ◌∷◌, length, filter_by, Option, none, some, ltb, ltb_ℤ,
  if◌then◌else◌, ℤ, pos, ◌+ℤ◌, ◌-ℤ◌, max_ℤ, Bool-cases,
}

-- `returns`: each value less the one before.
unfoldable pub returns : List ℤ → List ℤ
returns [] = []
returns (v ∷ []) = []
returns (v ∷ w ∷ vs) = (w -ℤ v) ∷ returns (w ∷ vs)

unfoldable pub sum_of : List ℤ → ℤ
sum_of [] = pos 0
sum_of (v ∷ vs) = v +ℤ sum_of vs

-- `maxPnl` after a value; before the first it is `none`, for minus infinity.
abbrev pub raised : Option ℤ → ℤ → ℤ
raised none v = v
raised (some peak) v = max_ℤ peak v

-- The loop of the drawdown, from `maxPnl` and `maxDD`.
unfoldable pub drawdown_from : Option ℤ → ℤ → List ℤ → ℤ
drawdown_from peak dd [] = dd
drawdown_from peak dd (v ∷ vs) =
    let top = raised peak v in drawdown_from (some top) (max_ℤ dd (top -ℤ v)) vs

unfoldable pub max_drawdown : List ℤ → ℤ
unfolding drawdown_from
max_drawdown vs = drawdown_from none (pos 0) vs

-- `wins`
unfoldable pub wins : List ℤ → ℕ
wins rs = length (filter_by (λ r. ltb_ℤ (pos 0) r) rs)

-- The sum and the count behind `avgReturn`, `wins` and their count behind `winRate`, and `maxDD`.
pub record Metrics : Type 0 where
  pub total_return : ℤ
  pub return_count : ℕ
  pub win_count : ℕ
  pub drawdown : ℤ

-- `calculateMetrics`, with nothing for the dashes of a history of less than two values.
unfoldable pub calculate_metrics : List ℤ → Option Metrics
unfolding returns sum_of wins max_drawdown
calculate_metrics vs =
    let rs = returns vs in
    if ltb (length vs) 2
    then none
    else some (record {
      total_return = sum_of rs;
      return_count = length rs;
      win_count = wins rs;
      drawdown = max_drawdown vs;
    })
