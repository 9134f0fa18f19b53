-- ===== src/Cache.antt =====
-- The life of the metadata cache of Discover, as far as it is decided outside SQL.
pub mod Migration
pub mod Discovery
pub mod Startup
