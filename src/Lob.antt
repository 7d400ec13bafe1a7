-- ===== src/Lob.antt =====
-- `class PersistentLOB` of vidhi_context/src/engine/simulation.worker.js, the limit order book that
-- the browser simulation trades on. `Types` has its data, `Book` one side of it as a JS `Map`,
-- `Orders` placing and cancelling, `Market` the matching loop, `Views` what readers of it see.
pub mod Types
pub mod Book
pub mod Orders
pub mod Market
pub mod Views
pub mod Best
pub mod Sound
pub mod Healthy
