-- ===== src/Util.antt =====
-- securepath/util: small conversions.
pub mod Hex
