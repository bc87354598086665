-- ===== src/Server.antt =====
-- cmd/bgp-api and internal/api: the server's caches, their plan and their warm-up.
pub mod CachePlan
pub mod ResponseCache
pub mod CacheWarmer
