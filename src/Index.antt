-- ===== src/Index.antt =====
-- org.glite.jp.index: the index server, which asks primary storages for selected attributes.
pub mod Queries
pub mod Feeds
pub mod Search
pub mod Jobs
