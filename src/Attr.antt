-- ===== src/Attr.antt =====
-- org.glite.jp.common/src/attr.c: attribute values, their comparison, their text form in the
-- database, and the choice of a type plugin.
pub mod Compare
pub mod Escape
pub mod Codec
pub mod Plugins
pub mod Time
