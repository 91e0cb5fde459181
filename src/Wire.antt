-- ===== src/Wire.antt =====
-- What rtnt puts on the wire: byte order, the packet stream and the packet header.
pub mod Endian
pub mod Packet
pub mod Codec
pub mod Sequence
pub mod RoundTrip
pub mod Header
pub mod Framing
