-- ===== src/Bytes.antt =====
-- What the protocol code uses of Rust's byte vectors: big-endian numbers, slices, and the UTF-8
-- test of `str::from_utf8`. A byte is a number below 256, and a slice or array a list of bytes.
pub mod BigEndian
pub mod Slice
pub mod Utf8
pub mod Words
pub mod Parts
