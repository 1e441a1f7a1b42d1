-- ===== src/Trust.antt =====
-- src/traghetto/trust and src/traghetto/tls/Fingerprint.cpp: which peers may connect.
pub mod Fingerprint
pub mod TokenBucket
pub mod Store
pub mod Pairing
