-- ===== src/Sim/Guard.antt =====
-- What the guard of the position limit lets through.
use vidhi_trading_platform.Prelude.{
  true, false, Bool, ◌≡◌, refl, List, [], ◌∷◌, not, filter_by, arith, ℤ, ◌≤ℤ◌, ◌<ℤ◌, abs_ℤ, leb_ℤ,
  pos, negsuc, ltb, ◌⊎◌, inl, inr, Bool-cases,
}
use vidhi_trading_platform.Sim.Types.{
  Call, limit_buy, limit_sell, market_buy, market_sell, cancel, position_limit,
}
use vidhi_trading_platform.Sim.Process.{Desk, blocked, execute, process}

-- Executing every call, with no guard.
unfoldable pub execute_all : List Call → Desk → Desk
execute_all [] d = d
execute_all (c ∷ cs) d = execute_all cs (execute c d)

abbrev pub is_market_buy : Call → Bool
is_market_buy (market_buy v) = true
is_market_buy _ = false

abbrev pub is_market_sell : Call → Bool
is_market_sell (market_sell v) = true
is_market_sell _ = false

below_limit :
    (position : ℤ) (c : Call)
    → leb_ℤ position_limit (abs_ℤ position) ≡ false
    → blocked position c ≡ false
unfolding blocked
below_limit position (limit_buy p v) h = refl
below_limit position (limit_sell p v) h = refl
below_limit position (market_buy v) h = rw h
below_limit position (market_sell v) h = rw h
below_limit position (cancel i) h = refl

-- The guard blocks the calls of this test.
process_filter :
    (test : Call → Bool) (position : ℤ) (cs : List Call) (d : Desk)
    → ((c : Call) → blocked position c ≡ test c)
    → process position cs d ≡ execute_all (filter_by (λ c. not (test c)) cs) d
unfolding process execute_all
process_filter test position [] d h = refl
process_filter test position (c ∷ cs) d h = elim (Bool-cases (test c)) [
  | inl e ↦ rw (h c, e) (process_filter test position cs d h)
  | inr e ↦ rw (h c, e) (process_filter test position cs (execute c d) h)
]

not_blocked :
    (position : ℤ) (cs : List Call) (d : Desk)
    → abs_ℤ position <ℤ position_limit
    → process position cs d ≡ execute_all cs d
unfolding process execute_all
not_blocked position [] d h = refl
not_blocked position (c ∷ cs) d h =
    rw (below_limit position c (not_reached position h), process)
      (not_blocked position cs (execute c d) h)
  where
    not_reached : (p : ℤ) → abs_ℤ p <ℤ position_limit → leb_ℤ position_limit (abs_ℤ p) ≡ false
    not_reached p k = ground arith

long_at_limit :
    (position : ℤ) (c : Call) → pos 1000 ≤ℤ position → blocked position c ≡ is_market_buy c
unfolding blocked abs_ℤ
long_at_limit position (limit_buy p v) h = refl
long_at_limit position (limit_sell p v) h = refl
long_at_limit position (market_buy v) h = ground arith
long_at_limit position (market_sell v) h = ground arith
long_at_limit position (cancel i) h = refl

short_at_limit :
    (position : ℤ) (c : Call) → position ≤ℤ negsuc 999 → blocked position c ≡ is_market_sell c
unfolding blocked abs_ℤ
short_at_limit position (limit_buy p v) h = refl
short_at_limit position (limit_sell p v) h = refl
short_at_limit position (market_buy v) h = ground arith
short_at_limit position (market_sell v) h = ground arith
short_at_limit position (cancel i) h = refl

-- Where a position stands to the limit of 1,000.
position_cases :
    (position : ℤ)
    → (pos 1000 ≤ℤ position)
      ⊎ ((position ≤ℤ negsuc 999) ⊎ ((negsuc 999 <ℤ position) × (position <ℤ pos 1000)))
position_cases (pos n) = elim (Bool-cases (ltb n 1000)) [
  | inl e ↦ inr (inr (ground (arith, e)))
  | inr e ↦ inl (ground (arith, e))
]
position_cases (negsuc n) = elim (Bool-cases (ltb n 999)) [
  | inl e ↦ inr (inr (ground (arith, e)))
  | inr e ↦ inr (inl (ground (arith, e)))
]

inside :
    (position : ℤ)
    → negsuc 999 <ℤ position
    → position <ℤ pos 1000
    → abs_ℤ position <ℤ position_limit
unfolding abs_ℤ
inside (pos n) low high = ground arith
inside (negsuc n) low high = ground arith

-- The guard of a tick goes by the position that the tick began with, for all calls of the tick: at 1,000 or more,
-- the market buys are skipped and all else is executed; at -1,000 or less, the market sells; in between nothing
-- is skipped, however far the fills of the tick have moved the position by then.
pub process_guarded :
    (position : ℤ) (cs : List Call) (d : Desk)
    → ((pos 1000 ≤ℤ position)
        × (process position cs d ≡ execute_all (filter_by (λ c. not (is_market_buy c)) cs) d))
      ⊎ (((position ≤ℤ negsuc 999)
            × (process position cs d ≡ execute_all (filter_by (λ c. not (is_market_sell c)) cs) d))
          ⊎ ((negsuc 999 <ℤ position)
              × (position <ℤ pos 1000)
              × (process position cs d ≡ execute_all cs d)))
process_guarded position cs d = elim (position_cases position) [
  | inl long ↦
      inl (long, process_filter is_market_buy position cs d (λ c. long_at_limit position c long))
  | inr (inl short) ↦ inr (
      inl
        (short, process_filter is_market_sell position cs d (λ c. short_at_limit position c short)))
  | inr (inr (low, high)) ↦
      inr (inr (low, high, not_blocked position cs d (inside position low high)))
]
