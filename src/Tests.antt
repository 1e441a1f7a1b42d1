-- ===== src/Tests.antt =====
-- Runs at concrete inputs, and the theorems at inputs that meet their hypotheses.
mod Cbor
mod Frames
mod Messages
mod Trust
mod Gate
mod Payloads
mod Dispatch
pub mod Serving
mod Mdns
mod Backend
mod Discovery
mod Queries
