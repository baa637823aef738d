-- ===== src/Uploads/Url.antt =====
-- `glite_jppsbe_get_job_url` of org.glite.jp.primary/src/new_ftp_backend.c: where a client finds a
-- file of a job.
use glite_jp.Base.{
  ℕ, [], ◌∷◌, ◌++◌, Bytes, same, Option, some, none, if◌then◌else◌, ◌==◌, Outcome, ok, err, fault,
  eperm, List, ◌≡◌, ◌↔◌, arith,
}
use glite_jp.Context.{Context}
use glite_jp.Authz.{authz, getting_files}
use glite_jp.Authz.Policy.{Allowed, code_of, authz-Allowed}
use glite_jp.Uploads.Tables.{JobRow, FileRow, UserRow, Db, Run, ◌>>=◌, give, from, query}
use glite_jp.Uploads.{Config, job_key, job_path, base_name, required}
use glite_jp.Uploads.Statements.{working, row_found}

-- the name of a job's owner
abbrev pub subject_of : JobRow → List UserRow → Option (JobRow × Bytes)
subject_of j [] = none
subject_of j (u ∷ us) = if same j.owner u.userid then some (j, u.cert_subj) else subject_of j us

-- `select j.owner, reg_time, u.cert_subj from jobs j, users u where j.jobid=key and j.owner=u.userid`
abbrev pub owner_of : Bytes → List JobRow → List UserRow → Option (JobRow × Bytes)
owner_of key [] us = none
owner_of key (j ∷ js) us = elim (if same key j.jobid then subject_of j us else none) [
  | some p ↦ some p
  | none ↦ owner_of key js us
]

-- Any refusal is reported as `EPERM`.
abbrev pub permitted : {A : Type 0} → Outcome (ℕ × A) → Outcome (Unit {0})
permitted (ok (code, a)) = if code == 0 then ok tt else err eperm
permitted (err e) = err e
permitted fault = fault

-- Whether the file was uploaded is not looked at.
unfoldable pub get_job_url :
    {Task W : Type 0} → Config → Context Task W → Bytes → Bytes → Option Bytes → Run Bytes
get_job_url cfg c job class name = do
  key ← from (job_key job)
  found ← query (λ s. owner_of key s.jobs s.users)
  r ← required found
  _ ← from (permitted (authz c getting_files (some r.1)))
  give (job_path cfg.external_path r.0.owner r.0.reg_time key ++ b'/' ∷ base_name class name)

gate :
    {Task W : Type 0} (o : Outcome (ℕ × Context Task W)) (url : Bytes) (s : Db)
    → (((from (permitted o) >>= λ _. give url) s).0 ≡ ok url) ↔ (code_of o ≡ ok 0)
gate (ok (code, c)) url s = ground arith
gate (err e) url s = ground arith
gate fault url s = ground arith

-- On a database that works, for a registered job whose owner is known and a client that has a name:
-- `get_job_url` returns the destination that an upload of this class and name has, exactly where
-- the policy lets the client get the files of this owner.
pub get_job_url-Allowed :
    {Task W : Type 0} (cfg : Config) (c : Context Task W) (job key class : Bytes)
    (name : Option Bytes) (peer subj : Bytes) (j : JobRow) (js : List JobRow) (fs : List FileRow)
    (us : List UserRow)
    → job_key job ≡ ok key
    → owner_of key js us ≡ some (j, subj)
    → c.peer ≡ some peer
    → ((get_job_url cfg c job class name (working js fs us)).0
        ≡ ok (job_path cfg.external_path j.owner j.reg_time key ++ b'/' ∷ base_name class name))
      ↔ Allowed c getting_files subj peer
unfolding get_job_url
get_job_url-Allowed cfg c job key class name peer subj j js fs us hk ho hp =
    rw (hk, row_found (λ s. owner_of key s.jobs s.users) js fs us, ho)
      ((λ e. policy.0 (gated.0 e)), λ a. gated.1 (policy.1 a))
  where
    policy :
        (code_of (authz c getting_files (some subj)) ≡ ok 0) ↔ Allowed c getting_files subj peer
    policy = authz-Allowed c getting_files subj peer hp

    url : Bytes
    url = job_path cfg.external_path j.owner j.reg_time key ++ b'/' ∷ base_name class name

    gated :
        (((from (permitted (authz c getting_files (some subj))) >>= λ _. give url)
            (working js fs us)).0
          ≡ ok url)
        ↔ (code_of (authz c getting_files (some subj)) ≡ ok 0)
    gated = gate (authz c getting_files (some subj)) url (working js fs us)
