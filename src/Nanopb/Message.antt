-- ===== src/Nanopb/Message.antt =====
-- The message encoder of nanopb/pb_encode.c, above its helper functions.
pub mod Submessage
pub mod Fields
pub mod Basic
pub mod Encoder
pub mod Does
pub mod Wire
pub mod Sizes
mod Examples
