-- ===== src/Wire.antt =====
-- src/traghetto/wire: the CNP wire format.
pub mod Word
pub mod Cbor
pub mod Arrays
pub mod Sizes
pub mod Fields
pub mod FileOps
pub mod Attributes
pub mod Listing
pub mod AttrOps
pub mod Handshake
pub mod Error
pub mod Namespace
pub mod Query
pub mod MessageType
pub mod Frame
