-- ===== src/Examples/Storage.antt =====
-- Jobs and uploads at concrete inputs.
use glite_jp.Base.{
  ◌++◌, ◌↔◌, ℕ, ◌+◌, ◌*◌, [], ◌∷◌, Bytes, codes, same, true, false, some, none, ok, ◌≡◌, refl,
  arith, inl,
}
use glite_jp.Uploads.Tables.{JobRow, FileRow, committed, Db, any, has_key, unexpired, job_of}
use glite_jp.Uploads.{
  Config, job_path, job_key, start_upload, commit_upload, destination_info, upload_row, base_name,
}
use glite_jp.Uploads.Kept.{Holds, Steps, stay, call, starts, Steps-Kept}
use glite_jp.Uploads.Statements.{working, Unused}
use glite_jp.Context.{Context}
use glite_jp.Authz.{getting_files}
use glite_jp.Authz.Policy.{Allowed}
use glite_jp.Uploads.Url.{owner_of, get_job_url, get_job_url-Allowed}
use glite_jp.Uploads.Cycle.{start-commit-info}

abbrev pub storage : Config
storage = record { internal_path = codes "/srv/jp"; external_path = codes "gsiftp://jp" }

abbrev self_hash : Bytes → Bytes
self_hash s = s

abbrev no_error : Bytes → ℕ
no_error s = 0

abbrev pub a_job : JobRow
a_job = record {
  jobid = codes "abcdefghij";
  dg_jobid = codes "https://lb/abcdefghij";
  owner = codes "alice";
  reg_time = 700000;
}

-- a file that was committed earlier
abbrev stored : FileRow
stored = record {
  jobid = codes "abcdefghij";
  filename = codes "lb.old";
  int_path = codes "old";
  ext_url = codes "old";
  state = committed;
  deadline = none;
  ul_userid = codes "bob";
}

pub a_key : job_key (codes "https://lb/abcdefghij") ≡ ok (codes "abcdefghij")
unfolding job_key
a_key = refl

abbrev new_row : FileRow
new_row =
    upload_row self_hash no_error storage (codes "abcdefghij") a_job
      (base_name (codes "lb") (some (codes "new"))) (codes "bob") (1000 + 5 * 60)

pub key_found : job_of (codes "abcdefghij") (a_job ∷ []) ≡ some a_job
unfolding same
key_found = refl

place_free :
    any
      (has_key (codes "abcdefghij") (base_name (codes "lb") (some (codes "new"))))
      (unexpired (codes "abcdefghij") 1000 (stored ∷ []))
    ≡ false
unfolding same unexpired
place_free = refl

place_taken :
    any
      (has_key (codes "abcdefghij") (base_name (codes "lb") (some (codes "old"))))
      (unexpired (codes "abcdefghij") 1000 (stored ∷ []))
    ≡ true
unfolding same unexpired
place_taken = refl

url_free : Unused new_row.ext_url (stored ∷ [])
url_free = ground arith

start-commit-info_example :
    (url : Bytes) × (t : Db) × (u : Db) × (start_upload self_hash no_error storage 1000
        (codes "bob")
        (codes "https://lb/abcdefghij")
        (codes "lb")
        (some (codes "new"))
        (some 5)
        (working (a_job ∷ []) (stored ∷ []) [])
      ≡ (ok (url, 1300), t))
    × (commit_upload self_hash no_error storage (codes "bob") url t ≡ (ok tt, u))
    × Holds (record new_row { state = committed; deadline = none }) u.files
    × (destination_info url u
        ≡ (ok (codes "https://lb/abcdefghij", (codes "lb", some (codes "new"))), u))
start-commit-info_example =
    start-commit-info self_hash no_error storage 1000 (codes "bob") (codes "https://lb/abcdefghij")
      (codes "abcdefghij") (codes "lb") (some (codes "new")) 5 a_job (a_job ∷ []) (stored ∷ []) []
      a_key key_found (ground arith) place_free url_free

abbrev after_call : Db
after_call =
    (start_upload self_hash no_error storage 1000 (codes "eve") (codes "https://lb/abcdefghij")
      (codes "lb") (some (codes "old")) (some 5) (working (a_job ∷ []) (stored ∷ []) [])).1

one_call : Steps self_hash no_error storage (working (a_job ∷ []) (stored ∷ []) []) after_call
one_call =
    call _ _ _
      (starts (working (a_job ∷ []) (stored ∷ []) []) 1000 (codes "eve")
        (codes "https://lb/abcdefghij") (codes "lb") (some (codes "old")) (some 5))
      (stay after_call)

Steps-Kept_example : Holds stored after_call.files
Steps-Kept_example =
    Steps-Kept self_hash no_error storage (working (a_job ∷ []) (stored ∷ []) []) after_call stored
      one_call (inl (refl, refl))

abbrev client : Context ℕ ℕ
client = record {
  errors = [];
  deferred = [];
  peer = some (codes "Alice");
  trusted_peers = [];
  noauth = false;
  world = 0;
}

owner_known :
    owner_of
      (codes "abcdefghij")
      (a_job ∷ [])
      (record { userid = codes "alice"; cert_subj = codes "Alice" } ∷ [])
    ≡ some (a_job, codes "Alice")
unfolding same
owner_known = refl

get_job_url-Allowed_example :
    ((get_job_url storage client (codes "https://lb/abcdefghij") (codes "lb") none (
        working
          (a_job ∷ [])
          []
          (record { userid = codes "alice"; cert_subj = codes "Alice" } ∷ []))).0
      ≡ ok (
          job_path storage.external_path (codes "alice") 700000 (codes "abcdefghij")
          ++ b'/' ∷ codes "lb"))
    ↔ Allowed client getting_files (codes "Alice") (codes "Alice")
get_job_url-Allowed_example =
    get_job_url-Allowed storage client (codes "https://lb/abcdefghij") (codes "abcdefghij")
      (codes "lb") none (codes "Alice") (codes "Alice") a_job (a_job ∷ []) []
      (record { userid = codes "alice"; cert_subj = codes "Alice" } ∷ []) a_key owner_known refl
