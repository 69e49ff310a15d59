-- ===== src/Crypto.antt =====
-- securepath/crypto: keys, certificates and chains of them.
pub mod Keys
pub mod CertificateCache
pub mod Chain
