-- ===== src/Encoding.antt =====
-- src/encoding.h: the byte streams, which write and read words of several widths, and the streams
-- of single bits over them.
pub mod Arrays
pub mod Encoder
pub mod Decoder
pub mod BitIn
pub mod BitOut
pub mod BitStream
pub mod Bytes
pub mod Combine
pub mod LittleEndian
pub mod RoundTrip
pub mod Stream
