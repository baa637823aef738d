-- ===== src/Retrieval.antt =====
-- org.glite.jp.primary/src/attrs.c: glite_jpps_get_attrs, over the tables, the tags and the files of a
-- job.
pub mod Metadata
pub mod Plugins
pub mod Attributes
