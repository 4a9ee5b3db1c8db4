-- ===== src/Nanopb/Codec.antt =====
-- What one side of nanopb writes, the other reads: the helpers of pb_encode.c against those of
-- pb_decode.c, through a buffer.
pub mod Varint
pub mod Fixed
pub mod Skip
pub mod Strings
pub mod Tags
pub mod Integers
