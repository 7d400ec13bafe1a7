-- ===== src/Sim/Walk/Bounds.antt =====
-- The limits of the random walk.
use vidhi_trading_platform.Prelude.{
  ℕ, List, [], ◌∷◌, All, ℤ, pos, ◌≤ℤ◌, min_ℤ, max_ℤ, arith, round_div, ◌*ℤ◌, ◌+ℤ◌, floor_div, ◌*◌,
  ◌+◌, int_laws,
}
use vidhi_trading_platform.Bots.Signal.{Signal}
use vidhi_trading_platform.Sim.Walk.{
  Moves, Walk, low_limit, high_limit, clamp, move_price, next, signals,
}

-- The limits are 0.7 and 1.3 of the base, to half a unit.
low_limit_near :
    (b : ℕ)
    → (pos (7 * b) ≤ℤ pos 10 *ℤ low_limit (pos b) +ℤ pos 5)
      × (pos 10 *ℤ low_limit (pos b) ≤ℤ pos (7 * b + 5))
unfolding low_limit round_div floor_div ◌*ℤ◌ ◌+ℤ◌
low_limit_near b = ground arith

high_limit_near :
    (b : ℕ)
    → (pos (13 * b) ≤ℤ pos 10 *ℤ high_limit (pos b) +ℤ pos 5)
      × (pos 10 *ℤ high_limit (pos b) ≤ℤ pos (13 * b + 5))
unfolding high_limit round_div floor_div ◌*ℤ◌ ◌+ℤ◌
high_limit_near b = ground arith

ten_times : (x y : ℤ) → x ≤ℤ y → pos 10 *ℤ x ≤ℤ pos 10 *ℤ y
unfolding ◌*ℤ◌
ten_times x y h = ground arith

limits : (b : ℕ) → low_limit (pos b) ≤ℤ high_limit (pos b)
unfolding low_limit high_limit round_div floor_div ◌*ℤ◌ ◌+ℤ◌
limits b = ground arith

clamp_bounds :
    (base price : ℤ)
    → low_limit base ≤ℤ high_limit base
    → (low_limit base ≤ℤ clamp base price) × (clamp base price ≤ℤ high_limit base)
unfolding clamp min_ℤ max_ℤ
clamp_bounds base price h = ground arith

-- A fair value is from 0.7 to 1.3 of the base price, to half a unit.
abbrev pub IsNear : ℕ → Signal → Type 0
IsNear b s =
    (pos (7 * b) ≤ℤ pos 10 *ℤ s.fair_value +ℤ pos 5) × (pos 10 *ℤ s.fair_value ≤ℤ pos (13 * b + 5))

between :
    (b : ℕ) (x : ℤ)
    → low_limit (pos b) ≤ℤ x
    → x ≤ℤ high_limit (pos b)
    → (pos (7 * b) ≤ℤ pos 10 *ℤ x +ℤ pos 5) × (pos 10 *ℤ x ≤ℤ pos (13 * b + 5))
unfolding ◌+ℤ◌
between b x low high =
    let low' = low_limit_near b in
    let high' = high_limit_near b in
    let more = ten_times (low_limit (pos b)) x low in
    let less = ten_times x (high_limit (pos b)) high in
    (omega (int_laws, low'.0, more), omega (int_laws, high'.1, less))

-- Whatever the draws and the moves that they make, the fair values of the walk are at least 0.7 and at most 1.3 of
-- the base price, to half a unit of 0.0001 dollars, also where the walk began with another base price.
pub signals_bounds :
    (m : Moves) (b : ℕ) (ts : List ℕ) (w : Walk) → All (IsNear b) (signals m (pos b) ts w)
unfolding signals next
signals_bounds m b [] w = tt
signals_bounds m b (t ∷ ts) w =
    let moved = (move_price m (pos b) t w).1 in
    let (low, high) = clamp_bounds (pos b) moved (limits b) in
    (between b (clamp (pos b) moved) low high, signals_bounds m b ts (next m (pos b) t w).1)
