-- ===== src/Wire.antt =====
-- The byte level of src/ieeeC37_118/ieeeC37_118.c: big endian words in a buffer, and the checksum.
-- A buffer is the list of its bytes; a read or a write past its end is `none`.
pub mod Decode
pub mod Encode
pub mod Crc
pub mod Cursor
pub mod RoundTrip
pub mod Room
pub mod Typed
