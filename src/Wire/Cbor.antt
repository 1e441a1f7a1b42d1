-- ===== src/Wire/Cbor.antt =====
-- src/traghetto/wire/Cbor.h and Cbor.cpp: the minimal CBOR codec. `Monad`, `Reader` and `Writer`
-- hold the definitions, the other modules the proofs.
pub mod Monad
pub mod Writer
pub mod Reader
pub mod Reads
pub mod Head
pub mod Item
pub mod Rounds
pub mod Skip
pub mod Safe
pub mod Ends
