-- ===== src/Web.antt =====
-- sonnet-web: the route trie, the router and the engine's groups.
pub mod Trie
pub mod Context
pub mod Engine
pub mod Router
