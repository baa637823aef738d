-- ===== src/Uploads/Tables.antt =====
-- The tables of jobs, files and users, and the statements that new_ftp_backend.c executes on them.
use glite_jp.Base.{
  ℕ, [], ◌∷◌, ◌++◌, Bytes, same, Bool, true, false, Option, some, none, ltb, if◌then◌else◌, ◌&&◌,
  ◌||◌, Outcome, ok, err, eexist, eio, List,
}
pub use glite_jp.Base.Act.{Act, after, ◌>>=◌, ◌>>◌, give, refuse, from}

-- the states of a file that the statements write
pub data FileState : Type 0 where
  uploading committed : FileState

-- No text is longer than its column, which is 255 characters for most of them. The time columns hold
-- the seconds: TimeToDB and DBToTime of the database library are taken to be
-- inverse to each other.
pub record JobRow : Type 0 where
  pub jobid : Bytes
  pub dg_jobid : Bytes
  pub owner : Bytes
  pub reg_time : ℕ

pub record FileRow : Type 0 where
  pub jobid : Bytes
  pub filename : Bytes
  pub int_path : Bytes
  pub ext_url : Bytes
  pub state : FileState
  pub deadline : Option ℕ
  pub ul_userid : Bytes

pub record UserRow : Type 0 where
  pub userid : Bytes
  pub cert_subj : Bytes

-- `outages` tells for the statements to come whether the database fails; behind its end it works.
pub record Db : Type 0 where
  pub jobs : List JobRow
  pub files : List FileRow
  pub users : List UserRow
  pub outages : List Bool

abbrev pub Run {ℓ} : Type ℓ → Type ℓ
Run A = Act Db A

abbrev pub is_down : List Bool → Bool
is_down [] = false
is_down (b ∷ l) = b

abbrev pub rest : List Bool → List Bool
rest [] = []
rest (b ∷ l) = l

abbrev pub next : Db → Db
next s = record s { outages = rest s.outages }

-- a `select`; a row that cannot be fetched is a failure of it
unfoldable pub query {ℓ} : {A : Type ℓ} → (Db → A) → Run A
query f s = if is_down s.outages then (err eio, next s) else (ok (f s), next s)

-- a statement that changes the tables, or is refused for a duplicate key
abbrev pub changed : Db → Option Db → Outcome (Unit {0}) × Db
changed s none = (err eexist, s)
changed s (some t) = (ok tt, t)

unfoldable pub change : (Db → Option Db) → Run (Unit {0})
change f s = if is_down s.outages then (err eio, next s) else changed (next s) (f (next s))

abbrev pub any {ℓ} : {A : Type ℓ} → (A → Bool) → List A → Bool
any p [] = false
any p (x ∷ xs) = p x || any p xs

-- primary key (jobid), unique (dg_jobid)
abbrev pub same_job : JobRow → JobRow → Bool
same_job j k = same j.jobid k.jobid || same j.dg_jobid k.dg_jobid

unfoldable pub insert_job : JobRow → Run (Unit {0})
insert_job j =
    change
      λ s. if any (same_job j) s.jobs then none else some (record s { jobs = s.jobs ++ j ∷ [] })

-- primary key (jobid, filename)
abbrev pub has_key : Bytes → Bytes → FileRow → Bool
has_key job name r = same job r.jobid && same name r.filename

unfoldable pub insert_file : FileRow → Run (Unit {0})
insert_file r = change λ s.
    if any (has_key r.jobid r.filename) s.files
    then none
    else some (record s { files = s.files ++ r ∷ [] })

-- primary key (userid), unique (cert_subj)
abbrev pub same_user : UserRow → UserRow → Bool
same_user u v = same u.userid v.userid || same u.cert_subj v.cert_subj

-- store_user: a user that is known already is no error
unfoldable pub insert_user : UserRow → Run (Unit {0})
insert_user u =
    change
      λ s. some (if any (same_user u) s.users then s else record s { users = s.users ++ u ∷ [] })

abbrev pub is_uploading : FileState → Bool
is_uploading uploading = true
is_uploading committed = false

-- `deadline < now`, which holds for no null deadline
abbrev pub is_past : ℕ → Option ℕ → Bool
is_past now none = false
is_past now (some t) = ltb t now

abbrev pub expired : Bytes → ℕ → FileRow → Bool
expired key now r = same key r.jobid && (is_uploading r.state && is_past now r.deadline)

unfoldable pub unexpired : Bytes → ℕ → List FileRow → List FileRow
unexpired key now [] = []
unexpired key now (r ∷ rs) =
    if expired key now r then unexpired key now rs else r ∷ unexpired key now rs

-- `delete from files where jobid = key and state = 'uploading' and deadline < now`
unfoldable pub expire : Bytes → ℕ → Run (Unit {0})
unfolding unexpired
expire key now = change λ s. some (record s { files = unexpired key now s.files })

abbrev pub commit_row : Bytes → Bytes → FileRow → FileRow
commit_row job name r =
    if has_key job name r then record r { state = committed; deadline = none } else r

unfoldable pub commit_rows : Bytes → Bytes → List FileRow → List FileRow
commit_rows job name [] = []
commit_rows job name (r ∷ rs) = commit_row job name r ∷ commit_rows job name rs

-- `update files set state='committed', deadline=NULL where jobid=job and filename=name`
unfoldable pub commit : Bytes → Bytes → Run (Unit {0})
unfolding commit_rows
commit job name = change λ s. some (record s { files = commit_rows job name s.files })

-- `select owner, reg_time from jobs where jobid=key`
abbrev pub job_of : Bytes → List JobRow → Option JobRow
job_of key [] = none
job_of key (j ∷ js) = if same key j.jobid then some j else job_of key js

-- `select * from files where ext_url=url and state='uploading'`
abbrev pub upload_at : Bytes → List FileRow → Option FileRow
upload_at url [] = none
upload_at url (r ∷ rs) =
    if same url r.ext_url && is_uploading r.state then some r else upload_at url rs

-- the job of a file, with the file's name
abbrev pub joined : Bytes → Bytes → List JobRow → Option (Bytes × Bytes)
joined key name [] = none
joined key name (j ∷ js) = if same key j.jobid then some (j.dg_jobid, name) else joined key name js

-- `select j.dg_jobid, f.filename from jobs j, files f where f.ext_url=url and j.jobid=f.jobid`
abbrev pub owner_of_url : Bytes → List JobRow → List FileRow → Option (Bytes × Bytes)
owner_of_url url js [] = none
owner_of_url url js (r ∷ rs) =
    elim (if same url r.ext_url then joined r.jobid r.filename js else none) [
      | some p ↦ some p
      | none ↦ owner_of_url url js rs
    ]
