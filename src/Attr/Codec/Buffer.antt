-- ===== src/Attr/Codec/Buffer.antt =====
-- The text that `fb_to_db_full` writes stays within the buffer that it allocates.
