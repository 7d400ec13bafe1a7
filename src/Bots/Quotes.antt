-- ===== src/Bots/Quotes.antt =====
-- The numbers that the bots quote: the market maker's two prices and the noise trader's random draws.
use vidhi_trading_platform.Prelude.{
  ℕ, ◌*◌, ◌/◌, ◌^◌, ◌≤◌, ◌<◌, ◌≡◌, arith, ℤ, pos, negsuc, ◌+ℤ◌, ◌-ℤ◌, ◌*ℤ◌, ◌≤ℤ◌, int_laws, parts,
  *ℤ_parts, max_ℤ, floor_div, round_div,
}
use vidhi_trading_platform.Lob.Types.{tick_size}
use vidhi_trading_platform.Lob.Views.{Snapshot}
use vidhi_trading_platform.Bots.Signal.{Signal}
use vidhi_trading_platform.Bots.MarketMaker.{quote_spread, quote_bid, quote_ask}
use vidhi_trading_platform.Bots.Noise.{xorshift, offset_of, full}

-- Rounding to a tick keeps a distance of two ticks.
floor_div_apart : (a b : ℤ) → a +ℤ pos 8000 ≤ℤ b → floor_div a 4000 +ℤ pos 2 ≤ℤ floor_div b 4000
unfolding floor_div ◌+ℤ◌
floor_div_apart (pos a) (pos b) h = ground arith
floor_div_apart (pos a) (negsuc b) h = ground arith
floor_div_apart (negsuc a) (pos b) h = ground arith
floor_div_apart (negsuc a) (negsuc b) h = ground arith

double : (a : ℤ) → pos 2 *ℤ a ≡ a +ℤ a
unfolding ◌*ℤ◌ ◌+ℤ◌
double (pos a) = ground arith
double (negsuc a) = ground arith

round_div_apart : (a b : ℤ) → a +ℤ pos 4000 ≤ℤ b → round_div a 2000 +ℤ pos 2 ≤ℤ round_div b 2000
unfolding round_div
round_div_apart a b h =
    floor_div_apart (pos 2 *ℤ a +ℤ pos 2000) (pos 2 *ℤ b +ℤ pos 2000)
      (omega (int_laws, parts (double a), parts (double b)))

quote_spread-ge : (snap : Snapshot) (signal : Signal) → pos 2000 ≤ℤ quote_spread snap signal
unfolding quote_spread max_ℤ
quote_spread-ge snap signal = ground arith

times_tick : (a b : ℤ) → a +ℤ pos 2 ≤ℤ b → a *ℤ tick_size +ℤ pos 200 ≤ℤ b *ℤ tick_size
times_tick a b h = omega (int_laws, *ℤ_parts a tick_size, *ℤ_parts b tick_size)

-- The market maker's ask is above its bid by at least two ticks, at any snapshot, signal and inventory.
quotes_apart :
    (snap : Snapshot) (signal : Signal) (inventory : ℤ)
    → quote_bid snap signal inventory +ℤ pos 200 ≤ℤ quote_ask snap signal inventory
unfolding quote_bid quote_ask
quotes_apart snap signal inventory =
    times_tick _ _ (round_div_apart _ _ (omega (int_laws, quote_spread-ge snap signal)))

pub xorshift-lt : (x : ℕ) → xorshift x < 2 ^ 32
unfolding xorshift
xorshift-lt x = omega arith

-- After a draw from any state, the offset of the noise trader's limit order is between two ticks
-- below and three ticks above the best price.
pub offset_range :
    (x : ℕ) → (pos 0 -ℤ pos 200 ≤ℤ offset_of (xorshift x)) × (offset_of (xorshift x) ≤ℤ pos 300)
unfolding offset_of
offset_range x =
    let r = xorshift x in
    let small : 5 * r / full ≤ 5 = omega (arith, xorshift-lt x) in
    let d = pos (5 * r / full) -ℤ pos 2 in
    (omega (int_laws, *ℤ_parts d tick_size), omega (int_laws, small, *ℤ_parts d tick_size))
