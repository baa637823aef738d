-- ===== src/Feed/Store.antt =====
-- The tables of feeds and of the jobs that were fed, in
-- org.glite.jp.primary/config/glite-jp-primary-dbsetup.sql, and the calls of
-- org.glite.jp.primary/src/new_ftp_backend.c on them. The time column holds the seconds.
pub mod Purge
pub mod Marks
use glite_jp.Base.{
  ℕ, [], ◌∷◌, ◌++◌, Bytes, same, Bool, true, false, not, Option, some, none, ltb, if◌then◌else◌,
  ◌&&◌, ◌||◌, Outcome, ok, err, eio, einval, List,
}
use glite_jp.Base.Act.{Act, after, ◌>>=◌, ◌>>◌, give, refuse, from}
use glite_jp.Uploads.{behind_slash}
use glite_jp.Uploads.Tables.{is_down, rest, any}

-- a row of `feeds`
pub record SavedFeed : Type 0 where
  pub feedid : Bytes
  pub destination : Bytes
  pub expires : ℕ
  pub cols : Bytes
  pub query : Bytes

-- a row of `fed_jobs`
pub record FedJob : Type 0 where
  pub feedid : Bytes
  pub jobid : Bytes

-- `outages` tells for the statements to come whether the database fails; behind its end it works.
pub record FeedTables : Type 0 where
  pub feeds : List SavedFeed
  pub fed_jobs : List FedJob
  pub outages : List Bool

abbrev pub executed : FeedTables → FeedTables
executed s = record s { outages = rest s.outages }

-- a `select`, all its rows being fetched; a row that cannot be fetched is a failure of it
unfoldable pub select {ℓ} : {A : Type ℓ} → (FeedTables → A) → Act FeedTables A
select f s = if is_down s.outages then (err eio, executed s) else (ok (f s), executed s)

abbrev pub replaced : FeedTables → Option FeedTables → Outcome (Unit {0}) × FeedTables
replaced s none = (err eio, s)
replaced s (some t) = (ok tt, t)

-- a statement that changes the tables, or is refused: each is an `EIO`
unfoldable pub exec_sql : (FeedTables → Option FeedTables) → Act FeedTables (Unit {0})
exec_sql f s =
    if is_down s.outages then (err eio, executed s) else replaced (executed s) (f (executed s))

-- jobid_unique_pathname, without the path
unfoldable pub unique_key : Bytes → Outcome Bytes
unfolding behind_slash
unique_key job = elim (behind_slash job) [ none ↦ err einval | some u ↦ ok u ]

-- primary key (jobid, feedid)
abbrev pub is_mark : Bytes → Bytes → FedJob → Bool
is_mark feed key r = same key r.jobid && same feed r.feedid

abbrev pub with_mark : Bytes → Bytes → FeedTables → Option FeedTables
with_mark feed key s =
    if any (is_mark feed key) s.fed_jobs
    then none
    else some (record s { fed_jobs = s.fed_jobs ++ record { feedid = feed; jobid = key } ∷ [] })

unfoldable pub set_fed : Bytes → Bytes → Act FeedTables (Unit {0})
set_fed feed job = from (unique_key job) >>= λ key. exec_sql (with_mark feed key)

unfoldable pub check_fed : Bytes → Bytes → Act FeedTables Bool
check_fed feed job = from (unique_key job) >>= λ key. select λ s. any (is_mark feed key) s.fed_jobs

-- primary key (feedid)
abbrev pub is_feed : Bytes → SavedFeed → Bool
is_feed id f = same id f.feedid

unfoldable pub insert_feed : SavedFeed → Act FeedTables (Unit {0})
insert_feed f = exec_sql λ s.
    if any (is_feed f.feedid) s.feeds then none else some (record s { feeds = s.feeds ++ f ∷ [] })

abbrev pub until : Bytes → ℕ → List SavedFeed → List SavedFeed
until id t [] = []
until id t (f ∷ fs) =
    let rest_of = until id t fs in
    if is_feed id f then record f { expires = t } ∷ rest_of else f ∷ rest_of

-- The identifier is written unescaped: it is taken to be one of generate_feedid, without quotes.
unfoldable pub refresh_feed : Bytes → ℕ → Act FeedTables (Unit {0})
refresh_feed id t = exec_sql λ s. some (record s { feeds = until id t s.feeds })

-- `expires < now`
abbrev pub overdue : ℕ → List SavedFeed → List Bytes
overdue now [] = []
overdue now (f ∷ fs) = let l = overdue now fs in if ltb f.expires now then f.feedid ∷ l else l

abbrev pub unmarked : Bytes → List FedJob → List FedJob
unmarked id [] = []
unmarked id (r ∷ rs) = let l = unmarked id rs in if same id r.feedid then l else r ∷ l

-- `delete from fed_jobs where feedid = id`, for each of them
unfoldable pub delete_marks : List Bytes → Act FeedTables (Unit {0})
delete_marks [] = give tt
delete_marks (id ∷ ids) =
    exec_sql (λ s. some (record s { fed_jobs = unmarked id s.fed_jobs })) >> delete_marks ids

abbrev pub standing : ℕ → List SavedFeed → List SavedFeed
standing now [] = []
standing now (f ∷ fs) = let l = standing now fs in if ltb f.expires now then l else f ∷ l

unfoldable pub purge_feeds : ℕ → Act FeedTables (Unit {0})
purge_feeds now = select (λ s. overdue now s.feeds) >>= λ ids.
    delete_marks ids >> exec_sql (λ s. some (record s { feeds = standing now s.feeds }))
