-- ===== src/Pages/Clock/Shown.antt =====
-- The time that the clock shows.
use vidhi_trading_platform.Prelude.{ℕ, ◌+◌, ◌*◌, ◌/◌, ◌<◌, ◌≡◌, arith}
use vidhi_trading_platform.Pages.Clock.{hms}

-- The hours, minutes and seconds of a time are its whole seconds, with less than sixty minutes and
-- seconds.
pub hms_whole :
    (diff : ℕ)
    → let t = hms diff in
      (3600 * t.hours + 60 * t.minutes + t.seconds ≡ diff / 1000)
      × (t.minutes < 60)
      × (t.seconds < 60)
unfolding hms
hms_whole diff = (omega arith, omega arith, omega arith)
