-- ===== src/Common.antt =====
-- securepath/common: the cache of keys and values.
pub mod KeyValueCache
