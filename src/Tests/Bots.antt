-- ===== src/Tests/Bots.antt =====
-- The bots' ring and quotes on small examples.
use vidhi_trading_platform.Prelude.{ℕ, ◌≡◌, refl, [], ◌∷◌, Option, some, none, pos, false}
use vidhi_trading_platform.Lob.Types.{empty_lob}
use vidhi_trading_platform.Lob.Views.{Snapshot, snapshot}
use vidhi_trading_platform.Bots.Signal.{Signal}
use vidhi_trading_platform.Bots.Ring.{Entry, OrderRing}
use vidhi_trading_platform.Bots.Ring.Queue.{queue}
use vidhi_trading_platform.Bots.Noise.{xorshift}

abbrev entry : ℕ → Option Entry
entry i = some (record { id = i; price = pos 100 })

abbrev half_full : OrderRing
half_full = record { ids = entry 1 ∷ none ∷ []; head = 1; count = 1; cap = 2 }

abbrev full_ring : OrderRing
full_ring = record { ids = entry 3 ∷ entry 2 ∷ []; head = 1; count = 2; cap = 2 }

full_queue : queue full_ring ≡ entry 2 ∷ entry 3 ∷ []
unfolding queue
full_queue = refl

abbrev calm : Signal
calm = record { fair_value = pos 15_000_070; volatility = pos 0; is_news_event = false }

abbrev seen : Snapshot
seen = snapshot (empty_lob (pos 15_000_000))

-- The first draw of the noise trader.
first_draw : xorshift 0xCAFEBABE ≡ 2827483434
unfolding xorshift
first_draw = refl
