-- ===== src/Files.antt =====
-- The files of jobs in org.glite.jp.primary/src/new_ftp_backend.c: their names, and how they are
-- opened and closed. A file stands on the disk with the bytes that zlib makes of it; a file that is
-- open for reading is read without an error.
pub mod TagCalls
pub mod Stored
pub mod Tagged
pub mod ReadBack
pub mod Refused
use glite_jp.Base.{
  ℕ, ◌%◌, ◌/◌, [], ◌∷◌, ◌++◌, Bytes, same, Bool, true, false, Option, some, none, ◌==◌,
  if◌then◌else◌, Outcome, ok, err, fault, List, take, length,
}
use glite_jp.Base.Act
use glite_jp.Base.Act.{Act, after, give, refuse, ◌>>=◌}
use glite_jp.Uploads.Tables.{Db, Run, from, query, is_down, rest, job_of}
use glite_jp.Uploads.{Config, job_key, job_path, base_name, required}
use glite_jp.Handle.{Handle, is_minus}

-- `outages` tells for the calls of gzopen to come whether they fail; behind its end they do not.
pub record Storage : Type 0 where
  pub db : Db
  pub disk : List (Bytes × Bytes)
  pub outages : List Bool

abbrev pub on_db {ℓ} : {A : Type ℓ} → Run A → Act Storage A
on_db m s = ((m s.db).0, record s { db = (m s.db).1 })

abbrev pub contents : Bytes → List (Bytes × Bytes) → Option Bytes
contents path [] = none
contents path ((p, c) ∷ d) = if same path p then some c else contents path d

abbrev pub put : Bytes → Bytes → List (Bytes × Bytes) → List (Bytes × Bytes)
put path new [] = (path, new) ∷ []
put path new ((p, c) ∷ d) = if same path p then (p, new) ∷ d else (p, c) ∷ put path new d

abbrev pub tried : Storage → Storage
tried s = record s { outages = rest s.outages }

-- `gzopen(path, "r")`, and what is read
abbrev pub gzopen_read : Bytes → Act Storage (Option Bytes)
gzopen_read path s =
    if is_down s.outages then (ok none, tried s) else (ok (contents path s.disk), tried s)

-- `gzopen(path, "w")`: the file is then empty
abbrev pub gzopen_write : Bytes → Act Storage Bool
gzopen_write path s =
    if is_down s.outages
    then (ok false, tried s)
    else (ok true, record s { disk = put path [] s.disk; outages = rest s.outages })

-- `O_CREAT`
abbrev pub creates : ℕ → Bool
creates mode = mode / 64 % 2 == 1

unfoldable pub get_job_fname : Config → Bytes → Bytes → Option Bytes → Run Bytes
get_job_fname cfg job class name = do
  key ← from (job_key job)
  found ← query (λ s. job_of key s.jobs)
  j ← required found
  glite_jp.Uploads.Tables.give
      (job_path cfg.internal_path j.owner j.reg_time key ++ b'/' ∷ base_name class name)

-- `plus` tells whether zlib takes the modes "r+" and "w+", and `null_code` is what gzerror makes of
-- the code, which is 0, for a file that could not be opened.
module _ (plus : Bool) (null_code : ℕ) where
  abbrev pub gzopen_update : Bytes → Act Storage (Option Bytes)
  gzopen_update path = if plus then gzopen_read path else give none

  abbrev pub emptied : Bool → Option Bytes
  emptied true = some []
  emptied false = none

  abbrev pub gzopen_create : Bytes → Act Storage (Option Bytes)
  gzopen_create path = if plus then (gzopen_write path >>= λ b. give (emptied b)) else give none

  abbrev pub or_created : ℕ → Bytes → Option Bytes → Act Storage (Option Bytes)
  or_created mode path none = if creates mode then gzopen_create path else give none
  or_created mode path (some c) = give (some c)

  -- the bytes that the file holds when it is open
  abbrev pub opened_as : ℕ → Bytes → Act Storage (Option Bytes)
  opened_as mode path =
      if mode % 4 == 0
      then gzopen_read path
      else if mode % 4 == 1
      then gzopen_update path
      else if mode % 4 == 2
      then (gzopen_update path >>= or_created mode path)
      else give none

  abbrev pub new_handle : ℕ → Bytes → Bytes → Handle
  new_handle mode path c = record {
    filename = some path;
    filemode = mode;
    filedata = c;
    eof = length c;
    modified = false;
  }

  abbrev pub gz_failed {ℓ} : {A : Type ℓ} → A → Act Storage A
  gz_failed a = if null_code == 0 then give a else refuse null_code

  -- With the code 0 the call succeeds, and sets no handle. A length that no int holds makes the
  -- buffer be allocated with a negative number of bytes.
  abbrev pub handle_of : ℕ → Bytes → Option Bytes → Act Storage (Option Handle)
  handle_of mode path none = gz_failed none
  handle_of mode path (some c) =
      if is_minus (length c) then (λ s. (fault, s)) else give (some (new_handle mode path c))

  unfoldable pub open_file : Config → Bytes → Bytes → Option Bytes → ℕ → Act Storage (Option Handle)
  open_file cfg job class name mode = on_db (get_job_fname cfg job class name) >>= λ path.
      opened_as mode path >>= handle_of mode path

  -- zlib refuses a negative end and writes nothing; what its gzclose then returns is looked up in
  -- the closed stream.
  abbrev pub written_out : Handle → Bytes → Bool → Act Storage (Unit {0})
  written_out h path false = gz_failed tt
  written_out h path true = λ s.
      if is_minus h.eof
      then (fault, s)
      else (ok tt, record s { disk = put path (take h.eof h.filedata) s.disk })

  abbrev pub write_back : Handle → Option Bytes → Act Storage (Unit {0})
  write_back h none = gz_failed tt
  write_back h (some path) = gzopen_write path >>= written_out h path

  -- A changed file is written anew.
  unfoldable pub close_file : Handle → Act Storage (Unit {0})
  close_file h = if h.modified then write_back h h.filename else give tt
