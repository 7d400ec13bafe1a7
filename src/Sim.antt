-- ===== src/Sim.antt =====
-- The simulation loop of vidhi_context/src/engine/simulation.worker.js: the contestant's runner, one
-- tick, the batches of 500 ticks, and the messages that start and stop it. What the contestant's code
-- does, the clock and the dataset come in through an `Environment`.
pub mod Types
pub mod Contestant
pub mod Process
pub mod Ledger
pub mod Tick
pub mod Batch
pub mod Progress
pub mod Fair
pub mod Invariant
pub mod Accounts
pub mod Activity
pub mod Guard
pub mod Custom
pub mod Load
pub mod Walk
pub mod Transpile
pub mod Worker
