-- ===== src/Transport.antt =====
-- src/traghetto/transport: frames over a stream socket.
pub mod Connection
