-- ===== src/Index/Jobs.antt =====
-- Jobs and their attributes in the index database: glite_jpis_lazyInsertJob and
-- glite_jpis_insertAttrVal of org.glite.jp.index/src/db_ops.c, and updateJob and UpdateJobs of
-- org.glite.jp.index/src/soap_ops.c.
pub mod Table
pub mod Lazy
use glite_jp.Base.{
  ℕ, suc, ◌+◌, ◌/◌, ◌%◌, [], ◌∷◌, ◌++◌, Bytes, same, Bool, true, false, not, ◌&&◌, ◌||◌, Option,
  some, none, ◌==◌, if◌then◌else◌, Outcome, ok, err, fault, eio, einval, List,
}
use glite_jp.Base.Act.{Act, after, ◌>>=◌, ◌>>◌, give, refuse}
use glite_jp.Types.{AttrVal}
use glite_jp.Attr.Codec.{Base64}
use glite_jp.Attr.Plugins.{TypePlugin, attrval_to_db_full, attrval_to_db_index}
use glite_jp.Index.Search.Request.{find_attr}
use glite_jp.Index.Search.{Trio, attr2id}
use glite_jp.Index.Feeds.Table.{FeedRow, failing, remaining}
use glite_jp.Index.Jobs.Table.{
  IndexJob, IndexUser, AttrRow, JobsDb, JobRun, ask, insert, has_job, has_name, has_user,
  has_subject, with_job, with_user, set_column, set_single, feed_of, set_state, set_states,
}

-- the switch on the number of rows: a failed query passes its assertion, and is taken as found
abbrev pub unless_found : Option Bool → JobRun Bool → JobRun (Unit {0})
unless_found none m = give tt
unless_found (some true) m = give tt
unless_found (some false) m = m >>= λ done. if done then give tt else refuse eio

module _ (hash : Bytes → Bytes) where
  abbrev pub ensure_job : Bytes → Bytes → Bytes → JobRun (Unit {0})
  ensure_job ps job owner = ask (λ s. has_job (hash job) s.jobs) >>= λ found. unless_found found (
      insert (
        with_job (record {
          jobid = hash job;
          dg_jobid = job;
          ownerid = hash owner;
          ps = ps;
          columns = [];
        })))

  abbrev pub ensure_user : Bytes → JobRun (Unit {0})
  ensure_user owner = ask (λ s. has_user (hash owner) s.users) >>= λ found.
      unless_found found (insert (with_user (record { userid = hash owner; cert_subj = owner })))

  -- The code of the latest error is taken to be EIO.
  unfoldable pub lazy_insert_job : Bytes → Option Bytes → Option Bytes → JobRun (Unit {0})
  lazy_insert_job ps (some job) (some owner) = ensure_job ps job owner >>= λ a. ensure_user owner
  lazy_insert_job ps none owner = refuse einval
  lazy_insert_job ps (some job) none = refuse einval

-- Text that stands unescaped between quotes.
abbrev pub is_plain : Bytes → Bool
is_plain [] = true
is_plain (c ∷ s) = not (c == 39) && (not (c == 92) && is_plain s)

abbrev pub must : Bool → JobRun (Unit {0})
must true = give tt
must false = refuse eio

-- `removed` is the optional flag of the record, which must not be set.
pub record JobRecord : Type 0 where
  pub jobid : Option Bytes
  pub owner : Option Bytes
  pub removed : Bool
  pub attributes : List AttrVal

abbrev pub has_done : ℕ → Bool
has_done status = status / 4 % 2 == 1

-- `update feeds set state=... where uniqueid=...`, if the feed is done for the first time
abbrev pub mark_done : Bool → FeedRow → JobRun (Unit {0})
mark_done done r = λ s.
    if done && not (has_done r.state)
    then after
        (insert (λ s. some (record s { feeds = set_states r.uniqueid (r.state + 4) s.feeds })) s)
        must
    else (ok tt, s)

abbrev pub known_feed : Option (Option FeedRow) → JobRun FeedRow
known_feed none = refuse eio
known_feed (some none) = refuse eio
known_feed (some (some r)) = give r

-- `unescaped` is what the database makes of the `update` of a column, a value and a job, where one of
-- the texts that are written unescaped ends its quotes: that may be any statement.
module _ (b : Base64) (ps : List TypePlugin) (t : Trio) (hash : Bytes → Bytes)
    (unescaped : Bytes → Bytes → Bytes → JobRun Bool) where
  abbrev pub attr_row : Bytes → AttrVal → AttrRow
  attr_row job a = record {
    table = attr2id b ps t hash a.name;
    jobid = hash job;
    value = attrval_to_db_index b ps a 255;
    full_value = attrval_to_db_full b ps a;
    origin = a.origin;
  }

  -- `update jobs set attr_...='value' where dg_jobid='job'`. The number of rows is 1 if it finds the
  -- job.
  abbrev pub update_single : Bytes → AttrVal → JobRun Bool
  update_single job a s =
      if is_plain (attrval_to_db_index b ps a 255) && is_plain job
      then insert
          (λ s.
            if has_name job s.jobs
            then some (record s {
              jobs =
                  set_single job (attr2id b ps t hash a.name) (attrval_to_db_index b ps a 255)
                    s.jobs;
            })
            else none)
          s
      else unescaped (attr2id b ps t hash a.name) (attrval_to_db_index b ps a 255) job s

  -- `multival` and `queriable` are lists of the configuration.
  unfoldable pub insert_attr_val : List Bytes → List Bytes → Bytes → AttrVal → JobRun (Unit {0})
  insert_attr_val multival queriable job a = do
    done ← insert λ s. some (record s { values = s.values ++ attr_row job a ∷ [] })
    must done
    if not (find_attr multival a.name) && find_attr queriable a.name
        then update_single job a >>= must
        else give tt

  -- The attributes of a job, without those that are not configured.
  unfoldable pub insert_attrs :
      List Bytes → List Bytes → List Bytes → Bytes → List AttrVal → JobRun (Unit {0})
  insert_attrs attrs multival queriable job [] = give tt
  insert_attrs attrs multival queriable job (a ∷ l) =
      (if find_attr attrs a.name then insert_attr_val multival queriable job a else give tt)
      >>= λ u. insert_attrs attrs multival queriable job l

  abbrev pub job_attrs :
      List Bytes → List Bytes → List Bytes → Option Bytes → List AttrVal → JobRun (Unit {0})
  job_attrs attrs multival queriable none l = give tt
  job_attrs attrs multival queriable (some job) l = insert_attrs attrs multival queriable job l

  unfoldable pub update_job :
      List Bytes → List Bytes → List Bytes → Bytes → JobRecord → JobRun (Unit {0})
  update_job attrs multival queriable source r = λ s.
      if r.removed
      then (fault, s)
      else after (lazy_insert_job hash source r.jobid r.owner s)
          λ u. job_attrs attrs multival queriable r.jobid r.attributes

  unfoldable pub update_all :
      List Bytes → List Bytes → List Bytes → Bytes → List JobRecord → JobRun (Unit {0})
  update_all attrs multival queriable source [] = give tt
  update_all attrs multival queriable source (r ∷ rs) =
      update_job attrs multival queriable source r >>= λ u.
      update_all attrs multival queriable source rs

  -- Every error is the SOAP fault.
  unfoldable pub update_jobs :
      List Bytes → List Bytes → List Bytes → Bytes → Bool → List JobRecord → JobRun (Unit {0})
  update_jobs attrs multival queriable feedid done rs = do
    found ← ask λ s. feed_of feedid s.feeds
    r ← known_feed found
    u ← mark_done done r
    update_all attrs multival queriable r.source rs
