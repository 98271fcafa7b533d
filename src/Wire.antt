-- ===== src/Wire.antt =====
-- The byte formats: little-endian numbers, readers over a span of bytes, and formats that a
-- writer and a reader agree on.
pub mod Bytes
pub mod Reader
pub mod Codec
pub mod Ints
pub mod Repeat
pub mod Bind
