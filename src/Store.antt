-- ===== src/Store.antt =====
-- `ContestStore` of `vidhi_context/src/store/ContestStore.js`: the contests, the student and the run
-- history that the pages share, kept in the browser's storage.
pub mod Types
pub mod Storage
pub mod Contests
pub mod Student
pub mod Board
pub mod Server
pub mod Datasets
pub mod Demo
pub mod Telemetry
pub mod Found
