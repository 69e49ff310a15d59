-- ===== src/Network.antt =====
-- securepath/network: the framing of messages on an encrypted stream, the handshake on it and the
-- connection that drives both.
pub mod Framing
pub mod Handshake
pub mod Connection
