-- ===== src/Nanopb/RoundTrip.antt =====
-- pb_decode.c behind pb_encode.c.
pub mod Varint
pub mod Varint32
pub mod Fixed
pub mod Tag
pub mod Skip
