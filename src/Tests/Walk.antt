-- ===== src/Tests/Walk.antt =====
-- The random walk with a base price of 100 dollars, and its bounds.
use vidhi_trading_platform.Prelude.{[], ◌∷◌, map, All, pos, ◌≡◌, refl}
use vidhi_trading_platform.Bots.Signal.{Signal}
use vidhi_trading_platform.Sim.Walk.{Moves, signals, first_walk}
use vidhi_trading_platform.Sim.Walk.Bounds.{IsNear, signals_bounds}

abbrev still : Moves
still = record { news = λ r s. pos 0; step = λ base price r s. pos 0; volatility = λ price. pos 0 }

-- The walk begins at 1,500 dollars whatever the base price is, so it starts at its limit.
at_limit :
    map (λ (s : Signal). s.fair_value) (signals still (pos 1_000_000) (0 ∷ 1 ∷ []) first_walk)
    ≡ pos 1_300_000 ∷ pos 1_300_000 ∷ []
unfolding signals
at_limit = refl

signals_bounds_example :
    All (IsNear 1_000_000) (signals still (pos 1_000_000) (0 ∷ 1 ∷ []) first_walk)
signals_bounds_example = signals_bounds still 1_000_000 (0 ∷ 1 ∷ []) first_walk
