-- ===== src/Uploads.antt =====
-- Jobs and uploads in org.glite.jp.primary/src/new_ftp_backend.c, over the tables of
-- org.glite.jp.primary/config/glite-jp-primary-dbsetup.sql.
pub mod Tables
pub mod Kept
pub mod Statements
pub mod Cycle
pub mod Url
use glite_jp.Base.{
  ℕ, ◌+◌, ◌*◌, ◌/◌, ◌%◌, [], ◌∷◌, ◌++◌, Bytes, codes, same, Bool, true, false, Option, some, none,
  ltb, ◌==◌, if◌then◌else◌, ◌&&◌, Outcome, ok, err, fault, eperm, enoent, einval, length, pos,
  wrap32, List,
}
use glite_jp.Base.Decimal.{print_int}
use glite_jp.Uploads.Tables.{
  JobRow, FileRow, UserRow, uploading, committed, Db, Run, ◌>>=◌, ◌>>◌, give, refuse, from, query,
  insert_job, insert_file, insert_user, expire, commit, job_of, upload_at, owner_of_url,
}

-- the paths of struct ftpbe_config that are used here
pub record Config : Type 0 where
  pub internal_path : Bytes
  pub external_path : Bytes

-- `strrchr(s, '/')`: what stands behind the last slash
unfoldable pub behind_slash : Bytes → Option Bytes
behind_slash [] = none
behind_slash (c ∷ s) = elim (behind_slash s) [
  | some r ↦ some r
  | none ↦ if c == b'/' then some s else none
]

abbrev checked_key : Option Bytes → Outcome Bytes
checked_key none = err einval
checked_key (some u) = if ltb (length u) 10 then fault else ok u

-- jobid_unique_pathname. The path's copy of the key is cut at its tenth byte, which lies behind
-- the end of a shorter one.
unfoldable pub job_key : Bytes → Outcome Bytes
unfolding behind_slash
job_key job = checked_key (behind_slash job)

-- a week
abbrev pub regtime_trunc : ℕ → ℕ
regtime_trunc t = t / (86400 * 7)

-- `%s/data/%s/%d/%s`
abbrev pub job_path : Bytes → Bytes → ℕ → Bytes → Bytes
job_path root owner t key =
    root
    ++ (codes "/data/"
        ++ (owner ++ (b'/' ∷ (print_int (wrap32 (pos (regtime_trunc t))) ++ (b'/' ∷ key)))))

-- `%s.%s`, or the class alone
abbrev pub base_name : Bytes → Option Bytes → Bytes
base_name class none = class
base_name class (some n) = class ++ b'.' ∷ n

-- Whatever deadline is asked for, the answer is five minutes from now; a null pointer is read.
abbrev pub deadline_of : ℕ → Option ℕ → Outcome ℕ
deadline_of now none = fault
deadline_of now (some t) = ok (now + 5 * 60)

-- `strchr(filename, '.')`: the class, and the name behind the dot
unfoldable pub split_dot : Bytes → Bytes × Option Bytes
split_dot [] = ([], none)
split_dot (c ∷ s) = let r = split_dot s in if c == b'.' then ([], some s) else (c ∷ r.0, r.1)

abbrev pub required : {A : Type 0} → Option A → Run A
required none = refuse enoent
required (some a) = give a

abbrev made : ℕ → Run (Unit {0})
made e = if e == 0 then give tt else refuse e

abbrev same_peer : Bytes → FileRow → Run (Unit {0})
same_peer id r = if same id r.ul_userid then give tt else refuse eperm

-- `hash` is `str2md5` of another library, and `mkdirpath` makes a directory: 0, or its errno where
-- that is not EEXIST.
module _ (hash : Bytes → Bytes) (mkdirpath : Bytes → ℕ) (cfg : Config) where
  unfoldable pub register_job : ℕ → Bytes → Bytes → Run (Unit {0})
  register_job now job owner = do
    key ← from (job_key job)
    insert_user (record { userid = hash owner; cert_subj = owner })
    insert_job (record { jobid = key; dg_jobid = job; owner = hash owner; reg_time = now })
    made (mkdirpath (job_path cfg.internal_path (hash owner) now key))

  -- the row that an upload adds
  abbrev pub upload_row : Bytes → JobRow → Bytes → Bytes → ℕ → FileRow
  upload_row key j base peer deadline = record {
    jobid = key;
    filename = base;
    int_path = job_path cfg.internal_path j.owner j.reg_time key ++ b'/' ∷ base;
    ext_url = job_path cfg.external_path j.owner j.reg_time key ++ b'/' ∷ base;
    state = uploading;
    deadline = some deadline;
    ul_userid = hash peer;
  }

  -- The destination and the deadline. `peer` is what `glite_jp_peer_name` returns.
  unfoldable pub start_upload :
      ℕ → Bytes → Bytes → Bytes → Option Bytes → Option ℕ → Run (Bytes × ℕ)
  start_upload now peer job class name before = do
    key ← from (job_key job)
    found ← query (λ s. job_of key s.jobs)
    j ← required found
    deadline ← from (deadline_of now before)
    insert_user (record { userid = hash peer; cert_subj = peer })
    expire key now
    insert_file (upload_row key j (base_name class name) peer deadline)
    give ((upload_row key j (base_name class name) peer deadline).ext_url, deadline)

  unfoldable pub commit_upload : Bytes → Bytes → Run (Unit {0})
  commit_upload peer destination = do
    found ← query (λ s. upload_at destination s.files)
    r ← required found
    same_peer (hash peer) r
    commit r.jobid r.filename

-- The job, the class and the name of a destination.
unfoldable pub destination_info : Bytes → Run (Bytes × (Bytes × Option Bytes))
unfolding split_dot
destination_info destination = do
  found ← query (λ s. owner_of_url destination s.jobs s.files)
  r ← required found
  give (r.0, split_dot r.1)
