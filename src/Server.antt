-- ===== src/Server.antt =====
-- src/traghetto/server: what serves a peer's requests.
pub mod GatedHandler
pub mod Posix
pub mod FileServer
