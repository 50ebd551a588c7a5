-- ===== src/Cache.antt =====
-- sonnet-cache: the consistent-hash ring and the LRU cache.
pub mod Ring
pub mod Lru
