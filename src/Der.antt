-- ===== src/Der.antt =====
-- securepath/serialisation: the ASN.1 DER codec.
pub mod Types
pub mod Octets
pub mod Stream
pub mod Encoder
pub mod Decoder
mod Tests
