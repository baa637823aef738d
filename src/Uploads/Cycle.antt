-- ===== src/Uploads/Cycle.antt =====
-- An upload from its start to its commit, on a database that works.
use glite_jp.Base.{
  ℕ, ◌+◌, ◌*◌, [], ◌∷◌, ◌++◌, Bytes, same_iff, true, false, Option, some, none, ok, err, eexist,
  List, All, ◌≡◌, ◌≢◌, refl, sym,
}
use glite_jp.Uploads.Tables.{
  JobRow, FileRow, UserRow, uploading, committed, Db, unexpired, commit_rows, has_key, any, job_of,
  upload_at,
}
use glite_jp.Uploads.{
  Config, start_upload, commit_upload, destination_info, job_key, upload_row, base_name,
}
use glite_jp.Uploads.Kept.{Holds}
use glite_jp.Uploads.Statements.{
  user_stored, expired_removed, file_added, file_refused, row_found, rows_committed,
  Unused-unexpired, upload_at-append, joined_job, Holds-committed, owner_found, info_lem, working,
  with_user, Unused,
}

module _ (hash : Bytes → Bytes) (mkdirpath : Bytes → ℕ) (cfg : Config) where
  -- the start of an upload, up to the insertion of the file
  start_lem :
      (now : ℕ) (peer job key class : Bytes) (name : Option Bytes) (before : ℕ) (j : JobRow)
      (js : List JobRow) (fs : List FileRow) (us : List UserRow)
      → job_key job ≡ ok key
      → job_of key js ≡ some j
      → any (has_key key (base_name class name)) (unexpired key now fs) ≡ false
      → start_upload hash mkdirpath cfg now peer job class name (some before) (working js fs us) ≡ (
        ok (
          (upload_row hash mkdirpath cfg key j (base_name class name) peer (now + 5 * 60)).ext_url,
          now + 5 * 60,
        ),
        working js
            (unexpired key now fs
              ++ upload_row hash mkdirpath cfg key j (base_name class name) peer (now + 5 * 60)
                ∷ [])
            (with_user (record { userid = hash peer; cert_subj = peer }) us),
      )
  unfolding start_upload
  start_lem now peer job key class name before j js fs us hk hj ha =
      rw
        (
          hk,
          row_found (λ s. job_of key s.jobs) js fs us,
          hj,
          user_stored js fs us (record { userid = hash peer; cert_subj = peer }),
          expired_removed js fs (with_user (record { userid = hash peer; cert_subj = peer }) us) key
              now,
          file_added js (unexpired key now fs)
              (with_user (record { userid = hash peer; cert_subj = peer }) us)
              (upload_row hash mkdirpath cfg key j (base_name class name) peer (now + 5 * 60)) ha,
        )
        refl

  commit_lem :
      (peer url : Bytes) (js : List JobRow) (fs : List FileRow) (us : List UserRow) (r : FileRow)
      → Unused url fs
      → r.ext_url ≡ url
      → r.state ≡ uploading
      → r.ul_userid ≡ hash peer
      → commit_upload hash mkdirpath cfg peer url (working js (fs ++ r ∷ []) us)
        ≡ (ok tt, working js (commit_rows r.jobid r.filename (fs ++ r ∷ [])) us)
  unfolding commit_upload
  commit_lem peer url js fs us r h e k i =
      rw
        (
          row_found (λ s. upload_at url s.files) js (fs ++ r ∷ []) us,
          upload_at-append url fs r h e k,
          (same_iff (hash peer) r.ul_userid).1 (sym i),
          rows_committed js (fs ++ r ∷ []) us r.jobid r.filename,
        )
        refl

  -- On a database that works, for a registered job with a valid identifier, a class without a dot, a
  -- place that no stored file and no unexpired upload takes, and a destination that no row has: the
  -- upload starts with a deadline five minutes ahead, the same peer can then commit it, the file is
  -- stored as committed, and its destination then tells the job, the class and the name.
  pub start-commit-info :
      (now : ℕ) (peer job key class : Bytes) (name : Option Bytes) (before : ℕ) (j : JobRow)
      (js : List JobRow) (fs : List FileRow) (us : List UserRow)
      → job_key job ≡ ok key
      → job_of key js ≡ some j
      → All (λ c. c ≢ b'.') class
      → any (has_key key (base_name class name)) (unexpired key now fs) ≡ false
      → Unused
          (upload_row hash mkdirpath cfg key j (base_name class name) peer (now + 5 * 60)).ext_url
          fs
      → (url : Bytes) × (t : Db) × (u : Db) × (start_upload hash mkdirpath cfg now peer job class
            name
            (some before)
            (working js fs us)
          ≡ (ok (url, now + 5 * 60), t))
        × (commit_upload hash mkdirpath cfg peer url t ≡ (ok tt, u))
        × Holds
            (record (upload_row hash mkdirpath cfg key j
              (base_name class name)
              peer
              (now + 5 * 60)) { state = committed; deadline = none })
            u.files
        × (destination_info url u ≡ (ok (j.dg_jobid, (class, name)), u))
  start-commit-info now peer job key class name before j js fs us hk hj hc ha hu = (
    row.ext_url,
    working js (unexpired key now fs ++ row ∷ []) users,
    working js (commit_rows key base (unexpired key now fs ++ row ∷ [])) users,
    start_lem now peer job key class name before j js fs us hk hj ha,
    commit_lem peer row.ext_url js (unexpired key now fs) users row free refl refl refl,
    Holds-committed (unexpired key now fs) row,
    info_lem row.ext_url js (commit_rows key base (unexpired key now fs ++ row ∷ [])) users j class
        name hc
        (owner_found row.ext_url key base js (unexpired key now fs) row (j.dg_jobid, base) free refl
          (joined_job key base js j hj)),
  )
    where
      base : Bytes
      base = base_name class name

      row : FileRow
      row = upload_row hash mkdirpath cfg key j base peer (now + 5 * 60)

      users : List UserRow
      users = with_user (record { userid = hash peer; cert_subj = peer }) us

      free : Unused row.ext_url (unexpired key now fs)
      free = Unused-unexpired row.ext_url key now fs hu

  -- On a database that works, an upload to a place that a stored file or an unexpired upload takes
  -- is refused with `EEXIST`.
  pub start_upload_taken :
      (now : ℕ) (peer job key class : Bytes) (name : Option Bytes) (before : ℕ) (j : JobRow)
      (js : List JobRow) (fs : List FileRow) (us : List UserRow)
      → job_key job ≡ ok key
      → job_of key js ≡ some j
      → any (has_key key (base_name class name)) (unexpired key now fs) ≡ true
      → (start_upload hash mkdirpath cfg now peer job class name (some before) (working js fs us)).0
        ≡ err eexist
  unfolding start_upload
  start_upload_taken now peer job key class name before j js fs us hk hj ha =
      rw
        (
          hk,
          row_found (λ s. job_of key s.jobs) js fs us,
          hj,
          user_stored js fs us (record { userid = hash peer; cert_subj = peer }),
          expired_removed js fs (with_user (record { userid = hash peer; cert_subj = peer }) us) key
              now,
          file_refused js (unexpired key now fs)
              (with_user (record { userid = hash peer; cert_subj = peer }) us)
              (upload_row hash mkdirpath cfg key j (base_name class name) peer (now + 5 * 60)) ha,
        )
        refl
