-- ===== src/Codec.antt =====
-- internal/importexport: the binary export format.
pub mod Words
pub mod Encode
pub mod Decode
pub mod RoundTrip
pub mod Sound
pub mod Refused
