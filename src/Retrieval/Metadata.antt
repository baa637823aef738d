-- ===== src/Retrieval/Metadata.antt =====
-- What the tables tell of a job: get_job_info, glite_jppsbe_get_job_metadata and
-- glite_jppsbe_get_names of org.glite.jp.primary/src/new_ftp_backend.c.
use glite_jp.Base.{
  ℕ, [], ◌∷◌, ◌++◌, Bytes, codes, same, Bool, true, false, ◌&&◌, Option, some, none, if◌then◌else◌,
  Outcome, ok, err, fault, einval, enoent, List, pos,
}
use glite_jp.Base
use glite_jp.Base.Decimal.{print_int}
use glite_jp.Types.{AttrVal, orig_system}
use glite_jp.Feed.Batch.{owner_attr, is_metadata}
use glite_jp.Uploads.{required, split_dot}
use glite_jp.Uploads.Tables.{
  JobRow, FileRow, UserRow, FileState, uploading, committed, Db, Run, ◌>>=◌, give, from, query,
}

-- the owner's name, and the time of the registration
abbrev pub subject_in : JobRow → List UserRow → Option (Bytes × ℕ)
subject_in j [] = none
subject_in j (u ∷ us) =
    if same j.owner u.userid then some (u.cert_subj, j.reg_time) else subject_in j us

-- `select u.cert_subj,j.reg_time from jobs j, users u where j.owner = u.userid and j.dg_jobid = job`
abbrev pub info_of : Bytes → List JobRow → List UserRow → Option (Bytes × ℕ)
info_of job [] us = none
info_of job (j ∷ js) us = elim (if same job j.dg_jobid then subject_in j us else none) [
  | some p ↦ some p
  | none ↦ info_of job js us
]

unfoldable pub get_job_info : Bytes → Run (Bytes × ℕ)
get_job_info job = query (λ s. info_of job s.jobs s.users) >>= required

-- `%ld.%06ld` for a regtime, whose microseconds are 0
abbrev pub system_value : Bytes → Bytes × ℕ → Bytes
system_value name (subject, t) =
    if same name owner_attr then subject else print_int (pos t) ++ codes ".000000"

abbrev pub system_attr : Bytes × ℕ → Bytes → AttrVal
system_attr info name = record {
  name = name;
  value = system_value name info;
  binary = false;
  size = 0;
  origin = orig_system;
  origin_detail = none;
  timestamp = pos info.1;
}

abbrev pub before_attr : AttrVal → Outcome (List AttrVal) → Outcome (List AttrVal)
before_attr a r = Base.◌>>=◌ r λ l. ok (a ∷ l)

abbrev pub system_attrs : Bytes × ℕ → List Bytes → Outcome (List AttrVal)
system_attrs info [] = ok []
system_attrs info (n ∷ ns) =
    if is_metadata n then before_attr (system_attr info n) (system_attrs info ns) else err einval

-- The tables are asked once, for the first name. A name that is no metadata is an error.
unfoldable pub get_job_metadata : Bytes → List Bytes → Run (List AttrVal)
get_job_metadata job [] = give []
get_job_metadata job (n ∷ ns) =
    if is_metadata n
    then (get_job_info job >>= λ info. from (system_attrs info (n ∷ ns)))
    else from (err einval)

abbrev pub is_committed : FileState → Bool
is_committed uploading = false
is_committed committed = true

abbrev pub key_named : Bytes → List JobRow → Option Bytes
key_named job [] = none
key_named job (j ∷ js) = if same job j.dg_jobid then some j.jobid else key_named job js

abbrev pub files_with : Bytes → List FileRow → List Bytes
files_with key [] = []
files_with key (r ∷ rs) =
    let l = files_with key rs in
    if same key r.jobid && is_committed r.state then r.filename ∷ l else l

-- `select filename from files f,jobs j where j.dg_jobid = job and j.jobid = f.jobid and
-- f.state = 'committed'`
abbrev pub committed_files : Bytes → Db → List Bytes
committed_files job s = elim (key_named job s.jobs) [
  | none ↦ []
  | some key ↦ files_with key s.files
]

-- A name of a file of a class: the class alone, or one that points into memory that is freed
-- before the call returns.
pub data NameRef : Type 0 where
  unnamed dangling : NameRef

abbrev pub name_ref : Option Bytes → NameRef
name_ref none = unnamed
name_ref (some n) = dangling

abbrev pub refs_of : Bytes → List Bytes → List NameRef
refs_of class [] = []
refs_of class (f ∷ fs) =
    let l = refs_of class fs in
    let r = split_dot f in if same r.0 class then name_ref r.1 ∷ l else l

abbrev pub some_files : List Bytes → Run (List Bytes)
some_files [] = from (err enoent)
some_files (f ∷ fs) = give (f ∷ fs)

unfoldable pub get_names : Bytes → Bytes → Run (List NameRef)
get_names job class = query (committed_files job) >>= some_files >>= λ fs. give (refs_of class fs)
