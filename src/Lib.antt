-- ===== src/Lib.antt =====
-- The Job Provenance service: its primary storage keeps the records and files of grid jobs, with
-- the tags that users add, and its index servers hold selected attributes for queries. Both are
-- built on a common library for attribute values and for the context of a call. This development
-- models the common library and the parts of the primary storage and of the index server that are
-- listed here. The index server asks primary storages for attributes by feeds, a storage answers
-- with UpdateJobs, and users query the index for jobs.
--
-- Base holds what the parts share: tests on numbers, byte strings as lists of numbers below 256 (a
-- C string is the list of the bytes before its NUL), the result of a C function as a value, an
-- error number or a fault (memory that is not the function's own, or a failed assert), and decimal
-- numbers as libc prints and reads them. Base.Act is a call that changes a state, whose changes stay
-- also where it fails. A file stands for the code that it names:
--
--   Types     org.glite.jp.common/interface/types.h
--   Attr      org.glite.jp.common/src/attr.c: Compare is glite_jp_attrval_copy and fb_cmp, Escape is
--             escape_colon and unescape_colon, Codec is fb_to_db_full, fb_to_db_index and fb_from_db,
--             Time is glite_jp_attr2time and glite_jp_time2attr, Plugins is get_plugin and the
--             dispatching functions, with glite_jpps_get_namespace of
--             org.glite.jp.common/src/utils.c. The base64 functions are a record that is passed.
--   Context   org.glite.jp.common/src/context.c: the chain of errors and the queue of deferred calls,
--             over any type of call. The call through the function pointer is a parameter.
--   Handle    the image of an open file in org.glite.jp.primary/src/new_ftp_backend.c: glite_jppsbe_pread,
--             glite_jppsbe_pwrite and glite_jppsbe_append
--   Tags      org.glite.jp.primary/src/tags.c: tag_append, tagsread and tag_attr, over Handle
--   Uploads   org.glite.jp.primary/src/new_ftp_backend.c over the tables of
--             org.glite.jp.primary/config/glite-jp-primary-dbsetup.sql: glite_jppsbe_register_job,
--             glite_jppsbe_start_upload, glite_jppsbe_commit_upload, glite_jppsbe_destination_info and,
--             in Url, glite_jppsbe_get_job_url.
--             Tables has one function for each statement; any statement may fail.
--   Files     the files of jobs in new_ftp_backend.c, over Uploads, Handle and Tags: get_job_fname,
--             glite_jppsbe_open_file and glite_jppsbe_close_file and, in TagCalls,
--             glite_jppsbe_append_tags and glite_jppsbe_read_tag. The disk is a list of paths with the
--             bytes that zlib makes of the files.
--   Authz     org.glite.jp.primary/src/authz.c: glite_jpps_authz
--   Feed      check_qry_item of org.glite.jp.primary/src/feed.c and, in Batch, a run of a feed over the
--             stored jobs: drain_feed with glite_jpps_multi_feed of org.glite.jp.primary/src/is_client.c,
--             feed_query_callback and run_feed_deferred. Matching is
--             is_feed_matching. Batch.Entries is what a row adds, and Batch.Sent what the messages
--             carry.
--             Store is the tables of the feeds with glite_jppsbe_set_fed, glite_jppsbe_check_fed,
--             glite_jppsbe_refresh_feed and glite_jppsbe_purge_feeds, Columns is the text of a feed in
--             them, glite_jppsbe_store_feed and glite_jppsbe_read_feeds, Register is the deferred
--             registration of a feed, and Updates is match_feed, full_feed and match_attr_deferred
--             with glite_jpps_single_feed of is_client.c and, in Many, match_feed_multi. The escapes of the logging library for these
--             texts are a parameter.
--   Retrieval org.glite.jp.primary/src/attrs.c: in Attributes glite_jpps_get_attrs and
--             merge_attrvals, over Files. Plugins is scan_namespaces and process_files, Metadata is
--             get_job_info, glite_jppsbe_get_job_metadata and glite_jppsbe_get_names of
--             new_ftp_backend.c. What a plugin does is a parameter.
--   Index     the index server. Queries is glite_jpis_db_queries_serialize and
--             glite_jpis_db_queries_deserialize of org.glite.jp.index/src/db_ops.c, with the growing
--             buffer in Buffers. Feeds is glite_jpis_lockSearchFeed, glite_jpis_initFeed,
--             glite_jpis_unlockFeed and the two reconnecting functions of db_ops.c, MyFeedIndex and
--             MyFeedRefresh of org.glite.jp.index/src/soap_ps_calls.c, and feed_caller of
--             org.glite.jp.index/src/bones_server.c, over the statements of Feeds.Table. Search is
--             QueryJobs of org.glite.jp.index/src/soap_ops.c up to the text of its SQL query. Jobs is
--             glite_jpis_lazyInsertJob and glite_jpis_insertAttrVal of db_ops.c, and updateJob and
--             UpdateJobs of soap_ops.c.
--   Examples  runs at concrete inputs
--
-- Functions of the source that loop without a bound take fuel, and return `none` when it runs out:
-- the two loops of tagsread, which need two rounds more than the file has records, and the search
-- of lockSearchFeed, which needs one round more than there are failing statements to come. All
-- other loops are recursions on the data.
--
-- The end of an open file and the size of a value for the database are ints, cut to 32 bits as in the
-- code. Memory is assumed to be there, so the branches for a failed allocation are left out, as are
-- freeing and logging. Pointers that may be null are options, or empty lists for arrays. The number
-- of a timestamp is any integer, and 64 and 32 bits are written out where the code cuts it.
--
-- What zlib does with a mode that has a plus sign, and the code that its gzerror leaves for a file
-- that could not be opened, differ between its versions and are parameters; each gzopen may fail,
-- and a file that is open is read, written and closed without an error. In a run of a feed the rows
-- of the search and the attributes of a job are parameters, and each call of the index server may
-- be refused.
--
-- What a primary storage answers to the index server is a parameter, as are the formatting of trio
-- and the hashes, what a database makes of a statement in which an unescaped text ends its quotes, and
-- in match_feed_multi what stood in the memory of a flag that was not set; elsewhere to read what was
-- never set is a fault. Each statement of a database may fail. One process at a time uses the feeds; the
-- clock stands still during one call.
--
-- Not modelled are the SOAP interfaces and the conversions of their values, the servers' processes,
-- the loaded plugins, the importer, and what only forwards to generated code or to other libraries.
-- The calls for the attributes of several jobs and of a new file (match_attr_multi_deferred and
-- match_file_deferred), the search of glite_jppsbe_query, the answers of QueryJobs and the creation of
-- the index database are not covered.
pub mod Base
pub mod Types
pub mod Attr
pub mod Context
pub mod Handle
pub mod Tags
pub mod Uploads
pub mod Files
pub mod Authz
pub mod Retrieval
pub mod Feed
pub mod Index
pub mod Examples
