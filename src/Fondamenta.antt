-- ===== src/Fondamenta.antt =====
-- src/fondamenta: what browses the shares of peers.
pub mod PeerBackend
pub mod CnpBackend
pub mod Discovery
