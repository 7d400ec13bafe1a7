-- ===== src/Bots/Noise.antt =====
-- `class NoiseTrader`: random orders round the best prices, six at a time, from a xorshift generator.
use Prim.Native.Nat.{bit_xor}
use vidhi_trading_platform.Prelude.{
  ℕ, ◌+◌, ◌-◌, ◌*◌, ◌/◌, ◌%◌, ◌^◌, String, ℤ, pos, ◌+ℤ◌, ◌-ℤ◌, ◌*ℤ◌, floor_div, ltb, if◌then◌else◌,
}
use vidhi_trading_platform.Lob.Types.{buy, sell, Lob, tick_size}
use vidhi_trading_platform.Lob.Views.{Snapshot}
use vidhi_trading_platform.Bots.Signal.{Ratio, is_zero}
use vidhi_trading_platform.Bots.Ring.{OrderRing, new_ring}
use vidhi_trading_platform.Bots.MeanReversion.{place}

abbrev pub name : String
name = "BOT_NOISE"

pub record NoiseTrader : Type 0 where
  pub scale : Ratio
  pub rng : ℕ
  pub ring : OrderRing

unfoldable pub new_noise : Ratio → NoiseTrader
unfolding new_ring
new_noise scale = record { scale = scale; rng = 0xCAFEBABE; ring = new_ring 6 }

-- `x << k` and the signed `x >> k` of an int32, as bit patterns below 2 ^ 32.
unfoldable pub shl32 : ℕ → ℕ → ℕ
shl32 x k = (x * 2 ^ k) % 2 ^ 32

unfoldable pub sar32 : ℕ → ℕ → ℕ
sar32 x k = if ltb x (2 ^ 31) then x / 2 ^ k else x / 2 ^ k + (2 ^ 32 - 2 ^ (32 - k))

-- `xorshift`: the next state. The number that it returns is the state over 0xFFFFFFFF.
unfoldable pub xorshift : ℕ → ℕ
unfolding shl32 sar32
xorshift x =
    let a = bit_xor x (shl32 x 13) in
    let b = bit_xor a (sar32 a 17) in bit_xor b (shl32 b 5) % 2 ^ 32

abbrev pub full : ℕ
full = 0xFFFFFFFF

-- `(Math.floor(u * 5) - 2) * TICK_SIZE`, for `u = r / 0xFFFFFFFF`.
unfoldable pub offset_of : ℕ → ℤ
offset_of r = (pos (5 * r / full) -ℤ pos 2) *ℤ tick_size

-- `Math.floor((10 + u * 30) * this.scale)`
unfoldable pub volume_of : ℕ → Ratio → ℤ
volume_of r s = floor_div (pos (10 * full + 30 * r) *ℤ s.num) (full * s.den)

unfoldable pub compute : Snapshot → NoiseTrader × Lob → NoiseTrader × Lob
unfolding xorshift offset_of volume_of place
compute snap (bot, lob) =
    let r1 = xorshift bot.rng in
    let r2 = xorshift r1 in
    let r3 = xorshift r2 in
    let r4 = xorshift r3 in
    let offset = offset_of r2 in
    let volume = volume_of r3 bot.scale in
    let (ring, traded) =
      if ltb full (2 * r4)
      then place buy (snap.bid_price +ℤ offset) volume name bot.ring lob
      else place sell (snap.ask_price +ℤ offset) volume name bot.ring lob in
    if is_zero bot.scale
    then (bot, lob)
    else (if ltb (6 * full) (10 * r1)
        then (record bot { rng = r1 }, lob)
        else (record bot { rng = r4; ring = ring }, traded))
