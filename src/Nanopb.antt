-- ===== src/Nanopb.antt =====
-- Code/Pods/nanopb: the protocol buffer encoder and decoder. The build defines PB_FIELD_32BIT,
-- PB_NO_PACKED_STRUCTS and PB_ENABLE_MALLOC (Pods/Target Support Files/nanopb), on 64-bit targets.
pub mod Descriptor
pub mod Input
pub mod Varint
pub mod Output
pub mod Encode
pub mod Decode
pub mod Iter
pub mod Memory
pub mod Message
pub mod FieldDecode
pub mod MessageDecode
pub mod RoundTrip
mod Examples
