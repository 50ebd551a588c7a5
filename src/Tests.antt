-- ===== src/Tests.antt =====
-- Runs of the definitions on concrete inputs, and the theorems at inputs that meet their hypotheses.
pub mod Web
pub mod Rpc
pub mod Pool
pub mod Orm
pub mod Cache
pub mod Lru
pub mod CacheV2
pub mod Flight
pub mod Lru2
pub mod Group
pub mod Stores
pub mod Ring
