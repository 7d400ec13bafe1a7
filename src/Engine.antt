-- ===== src/Engine.antt =====
-- `VidhiEngine` of `vidhi_context/src/engine/VidhiEngine.js`: what starts a run in the worker or on a
-- server, and what its messages do to the state that the pages show.
pub mod Types
pub mod Shown
pub mod Notify
pub mod Telemetry
pub mod Messages
pub mod Validate
pub mod Config
pub mod Submit
pub mod Launch
pub mod Polling
pub mod Events
