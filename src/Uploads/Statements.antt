-- ===== src/Uploads/Statements.antt =====
-- What the statements do on a database that works.
use glite_jp.Base.{
  ℕ, [], ◌∷◌, ◌++◌, Bytes, same, same_refl, same_iff, true, false, Bool-cases, inl, inr, Option,
  some, none, if◌then◌else◌, ok, err, eexist, List, All, ◌≡◌, ◌≢◌, refl, arith,
}
use glite_jp.Uploads.Tables.{
  JobRow, FileRow, UserRow, uploading, committed, Db, query, change, insert_file, insert_user,
  expire, commit, unexpired, expired, commit_rows, has_key, any, same_user, job_of, joined,
  upload_at, owner_of_url,
}
use glite_jp.Uploads.{destination_info, base_name, split_dot}
use glite_jp.Uploads.Kept.{Holds}

-- a database with these rows that does not fail
abbrev pub working : List JobRow → List FileRow → List UserRow → Db
working js fs us = record { jobs = js; files = fs; users = us; outages = [] }

abbrev pub with_user : UserRow → List UserRow → List UserRow
with_user u us = if any (same_user u) us then us else us ++ u ∷ []

pub user_stored :
    (js : List JobRow) (fs : List FileRow) (us : List UserRow) (u : UserRow)
    → insert_user u (working js fs us) ≡ (ok tt, working js fs (with_user u us))
unfolding insert_user change
user_stored js fs us u = elim (Bool-cases (any (same_user u) us)) [
  | inl e ↦ rw e refl
  | inr e ↦ rw e refl
]

pub expired_removed :
    (js : List JobRow) (fs : List FileRow) (us : List UserRow) (key : Bytes) (now : ℕ)
    → expire key now (working js fs us) ≡ (ok tt, working js (unexpired key now fs) us)
unfolding expire change
expired_removed js fs us key now = refl

pub file_added :
    (js : List JobRow) (fs : List FileRow) (us : List UserRow) (r : FileRow)
    → any (has_key r.jobid r.filename) fs ≡ false
    → insert_file r (working js fs us) ≡ (ok tt, working js (fs ++ r ∷ []) us)
unfolding insert_file change
file_added js fs us r e = rw e refl

pub file_refused :
    (js : List JobRow) (fs : List FileRow) (us : List UserRow) (r : FileRow)
    → any (has_key r.jobid r.filename) fs ≡ true
    → insert_file r (working js fs us) ≡ (err eexist, working js fs us)
unfolding insert_file change
file_refused js fs us r e = rw e refl

pub row_found {ℓ} :
    {A : Type ℓ} (f : Db → A) (js : List JobRow) (fs : List FileRow) (us : List UserRow)
    → query f (working js fs us) ≡ (ok (f (working js fs us)), working js fs us)
unfolding query
row_found f js fs us = refl

pub rows_committed :
    (js : List JobRow) (fs : List FileRow) (us : List UserRow) (job name : Bytes)
    → commit job name (working js fs us) ≡ (ok tt, working js (commit_rows job name fs) us)
unfolding commit change
rows_committed js fs us job name = refl

-- no row has this destination
abbrev pub Unused : Bytes → List FileRow → Type 0
Unused url = All (λ (r : FileRow). url ≢ r.ext_url)

pub Unused-unexpired :
    (url key : Bytes) (now : ℕ) (fs : List FileRow)
    → Unused url fs
    → Unused url (unexpired key now fs)
unfolding unexpired
Unused-unexpired url key now [] h = h
Unused-unexpired url key now (r ∷ fs) (hr, hs) = elim (Bool-cases (expired key now r)) [
  | inl e ↦ rw e (Unused-unexpired url key now fs hs)
  | inr e ↦ rw e (hr, Unused-unexpired url key now fs hs)
]

pub different : (a b : Bytes) → a ≢ b → same a b ≡ false
different a b h = elim (Bool-cases (same a b)) [
  | inl e ↦ absurd (h ((same_iff a b).0 e))
  | inr e ↦ e
]

pub upload_at-append :
    (url : Bytes) (fs : List FileRow) (r : FileRow)
    → Unused url fs
    → r.ext_url ≡ url
    → r.state ≡ uploading
    → upload_at url (fs ++ r ∷ []) ≡ some r
upload_at-append url [] r h e k = rw (e, same_refl url, k) refl
upload_at-append url (x ∷ fs) r (hx, hs) e k =
    rw (different url x.ext_url hx) (upload_at-append url fs r hs e k)

pub joined_job :
    (key name : Bytes) (js : List JobRow) (j : JobRow)
    → job_of key js ≡ some j
    → joined key name js ≡ some (j.dg_jobid, name)
joined_job key name [] j h = cc
joined_job key name (x ∷ js) j h = ground (arith, joined_job key name js j)

pub split_base :
    (class : Bytes) (name : Option Bytes)
    → All (λ c. c ≢ b'.') class
    → split_dot (base_name class name) ≡ (class, name)
unfolding split_dot
split_base [] none h = refl
split_base [] (some n) h = refl
split_base (c ∷ cs) none (hc, hs) = ground (arith, split_base cs none hs)
split_base (c ∷ cs) (some n) (hc, hs) = ground (arith, split_base cs (some n) hs)

pub Holds-committed :
    (fs : List FileRow) (r : FileRow)
    → Holds
        (record r { deadline = none; state = committed })
        (commit_rows r.jobid r.filename (fs ++ r ∷ []))
unfolding commit_rows
Holds-committed [] r = inl (
  rw (same_refl r.jobid, same_refl r.filename) refl,
  rw (same_refl r.jobid, same_refl r.filename) refl,
)
Holds-committed (x ∷ fs) r = inr (Holds-committed fs r)

pub owner_found :
    (url key name : Bytes) (js : List JobRow) (fs : List FileRow) (r : FileRow) (p : Bytes × Bytes)
    → Unused url fs
    → r.ext_url ≡ url
    → joined r.jobid r.filename js ≡ some p
    → owner_of_url url js (commit_rows key name (fs ++ r ∷ [])) ≡ some p
unfolding commit_rows
owner_found url key name js [] r p h e k = elim (Bool-cases (has_key key name r)) [
  | inl q ↦ rw (q, e, same_refl url, k, owner_of_url) refl
  | inr q ↦ rw (q, e, same_refl url, k, owner_of_url) refl
]
owner_found url key name js (x ∷ fs) r p (hx, hs) e k = elim (Bool-cases (has_key key name x)) [
  | inl q ↦
      rw (q, different url x.ext_url hx, owner_of_url) (owner_found url key name js fs r p hs e k)
  | inr q ↦
      rw (q, different url x.ext_url hx, owner_of_url) (owner_found url key name js fs r p hs e k)
]

pub info_lem :
    (url : Bytes) (js : List JobRow) (fs : List FileRow) (us : List UserRow) (j : JobRow)
    (class : Bytes) (name : Option Bytes)
    → All (λ c. c ≢ b'.') class
    → owner_of_url url js fs ≡ some (j.dg_jobid, base_name class name)
    → destination_info url (working js fs us) ≡ (ok (j.dg_jobid, (class, name)), working js fs us)
unfolding destination_info
info_lem url js fs us j class name hc h =
    rw (row_found (λ s. owner_of_url url s.jobs s.files) js fs us, h, split_base class name hc) refl
