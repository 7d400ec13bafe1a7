-- ===== src/Bots.antt =====
-- The five bot strategies of vidhi_context/src/engine/simulation.worker.js, which trade against the
-- contestant on the same book. `Signal` has the price signal and exact fractions, `Ring` the
-- `OrderRing` that caps resting orders.
pub mod Signal
pub mod Ring
pub mod MarketMaker
pub mod Momentum
pub mod MeanReversion
pub mod Noise
pub mod Sniper
pub mod Sound
pub mod Quotes
