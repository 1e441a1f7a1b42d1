-- ===== src/Bricola.antt =====
-- src/bricola: the discovery of peers by mDNS.
pub mod MdnsWire
pub mod Responder
pub mod Keys
pub mod PeerTable
