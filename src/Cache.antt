-- ===== src/Cache.antt =====
-- internal/services/cache.
pub mod Codecs
pub mod Level
pub mod Levels
pub mod Bulk
mod Tests
