-- ===== src/Tests/Pages.antt =====
-- A history that falls twice, and the clock in and between rounds.
use vidhi_trading_platform.Prelude.{
  List, [], ◌∷◌, ℤ, pos, negsuc, some, ◌≤ℤ◌, ◌-ℤ◌, max_ℤ, ◌+ℤ◌, ◌≡◌, refl,
}
use vidhi_trading_platform.Pages.Metrics.{max_drawdown, calculate_metrics}
use vidhi_trading_platform.Pages.Metrics.Largest.{IsFall, max_drawdown_largest}
use vidhi_trading_platform.Pages.Clock.{update_timer, ends_in, starts_in, finished}
use vidhi_trading_platform.Tests.Store.{round}

abbrev values : List ℤ
values = pos 7 ∷ pos 3 ∷ negsuc 1 ∷ pos 9 ∷ pos 2 ∷ []

max_drawdown_largest_example :
    let r = max_drawdown (pos 5 ∷ values) in
    IsFall (pos 5 ∷ values) r × ((d : ℤ) → IsFall (pos 5 ∷ values) d → d ≤ℤ r)
max_drawdown_largest_example = max_drawdown_largest (pos 5) values

metrics :
    calculate_metrics (pos 5 ∷ values)
    ≡ some (record { total_return = negsuc 2; return_count = 5; win_count = 2; drawdown = pos 9 })
unfolding calculate_metrics ◌-ℤ◌ ◌+ℤ◌ max_ℤ
metrics = refl

in_round :
    update_timer 5000 (record (round "r1") { start_at = 1000; end_at = 3_700_000 } ∷ [])
    ≡ ends_in (record { hours = 1; minutes = 1; seconds = 35 })
unfolding update_timer
in_round = refl

in_break :
    update_timer 500 (record (round "r1") { start_at = 61_500; end_at = 3_700_000 } ∷ [])
    ≡ starts_in (record { hours = 0; minutes = 1; seconds = 1 })
unfolding update_timer
in_break = refl

no_round : update_timer 500 (round "r1" ∷ []) ≡ finished
unfolding update_timer
no_round = refl
