-- ===== src/Utils.antt =====
-- src/utils: byte streams, integer codecs and interval sets.
pub mod ByteStream
pub mod Codec
pub mod Interval
