-- ===== src/Sim/Load/Binary.antt =====
-- What `parseVidhiBinary` reads, price by price.
use vidhi_trading_platform.Prelude.{ℕ, ◌+◌, ltb, if◌then◌else◌, ℤ, pos}
use vidhi_trading_platform.Sim.Load.{BinaryFile, tick_record_bytes}

-- The price of a record: what the file has at its place, and 0 if the file ends before the record does.
abbrev pub price_at : BinaryFile → ℕ → ℤ
price_at f offset =
    if ltb f.byte_length (offset + tick_record_bytes) then pos 0 else f.float64 (offset + 24)
