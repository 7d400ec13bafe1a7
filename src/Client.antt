-- ===== src/Client.antt =====
-- `vidhi_context/src/api/client.js`: the requests to the server, the API key that they carry, the
-- polling of a run and the websocket that connects again.
pub mod Http
pub mod Keys
pub mod Requests
pub mod Poll
pub mod Socket
