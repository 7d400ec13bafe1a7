-- ===== src/Pages.antt =====
-- What the pages and components of `vidhi_context/src` do and compute before they draw: a module for each, or
-- for each part of one.
pub mod Metrics
pub mod Clock
pub mod Chart
pub mod Form
pub mod Roles
pub mod Board
pub mod Countdown
pub mod Sidebar
pub mod Results
pub mod Lobby
pub mod Arena
