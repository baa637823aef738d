-- ===== src/Uploads/Kept.antt =====
-- A committed file stays: no sequence of operations removes or changes one.
use glite_jp.Base.{
  ℕ, [], ◌∷◌, ◌++◌, Bytes, same, false, Bool-cases, inl, inr, ◌⊎◌, Option, some, none,
  if◌then◌else◌, List, ◌≡◌, refl, subst, sym, ap, ◌∙◌, arith, ◌==◌,
}
use glite_jp.Base.Act
use glite_jp.Uploads.Tables.{
  JobRow, FileRow, UserRow, FileState, committed, Db, Run, ◌>>=◌, from, next, query, change,
  changed, insert_job, insert_file, insert_user, expire, commit, unexpired, expired, commit_row,
  commit_rows, has_key, any, is_down,
}
use glite_jp.Uploads.{
  Config, register_job, start_upload, commit_upload, destination_info, required, made, same_peer,
  deadline_of, job_key,
}

-- A committed file with these fields is among the rows.
abbrev pub Holds : FileRow → List FileRow → Type 0
Holds r [] = ⊥
Holds r (x ∷ xs) = ((x.state ≡ committed) × (record x { deadline = none } ≡ r)) ⊎ Holds r xs

-- the committed files of one database are in the other
abbrev pub Kept : Db → Db → Type 0
Kept s t = (r : FileRow) → Holds r s.files → Holds r t.files

abbrev Keeps {ℓ} : {A : Type ℓ} → Run A → Type 0
Keeps m = (s : Db) → Kept s (m s).1

Keeps-bind {ℓ κ} :
    {A : Type ℓ} {B : Type κ} (m : Run A) (f : A → Run B)
    → Keeps m
    → ((a : A) → Keeps (f a))
    → Keeps (m >>= f)
Keeps-bind m f h k = Act.Keeps-bind Kept m f (λ s t u p q r x. q r (p r x)) h k

Keeps-query {ℓ} : {A : Type ℓ} (f : Db → A) → Keeps (query f)
unfolding query
Keeps-query f s r h = elim (Bool-cases (is_down s.outages)) [ inl e ↦ rw e h | inr e ↦ rw e h ]

Kept-some : (s : Db) (o : Option Db) → ((t : Db) → o ≡ some t → Kept s t) → Kept s (changed s o).1
Kept-some s none h = λ r p. p
Kept-some s (some t) h = h t refl

Keeps-change : (f : Db → Option Db) → ((s t : Db) → f s ≡ some t → Kept s t) → Keeps (change f)
unfolding change
Keeps-change f h s r p = elim (Bool-cases (is_down s.outages)) [
  | inl e ↦ rw e p
  | inr e ↦ rw e (Kept-some (next s) (f (next s)) (h (next s)) r p)
]

Holds-append : (r x : FileRow) (xs : List FileRow) → Holds r xs → Holds r (xs ++ x ∷ [])
Holds-append r x [] h = absurd h
Holds-append r x (y ∷ xs) (inl e) = inl e
Holds-append r x (y ∷ xs) (inr e) = inr (Holds-append r x xs e)

not_expired :
    (key : Bytes) (now : ℕ) (x : FileRow) → x.state ≡ committed → expired key now x ≡ false
not_expired key now x e = rw e (ground arith)

Holds-unexpired :
    (key : Bytes) (now : ℕ) (r : FileRow) (xs : List FileRow)
    → Holds r xs
    → Holds r (unexpired key now xs)
unfolding unexpired
Holds-unexpired key now r [] h = h
Holds-unexpired key now r (x ∷ xs) (inl (e, p)) = rw (not_expired key now x e) (inl (e, p))
Holds-unexpired key now r (x ∷ xs) (inr h) = elim (Bool-cases (expired key now x)) [
  | inl e ↦ rw e (Holds-unexpired key now r xs h)
  | inr e ↦ rw e (inr (Holds-unexpired key now r xs h))
]

commit_row-committed :
    (job name : Bytes) (r x : FileRow)
    → x.state ≡ committed
    → record x { deadline = none } ≡ r
    → ((commit_row job name x).state ≡ committed)
      × (record (commit_row job name x) { deadline = none } ≡ r)
commit_row-committed job name r x e p = elim (Bool-cases (has_key job name x)) [
  | inl k ↦ rw k (refl, ap (λ (c : FileState). record x { state = c; deadline = none }) (sym e) ∙ p)
  | inr k ↦ rw k (e, p)
]

Holds-commit_rows :
    (job name : Bytes) (r : FileRow) (xs : List FileRow)
    → Holds r xs
    → Holds r (commit_rows job name xs)
unfolding commit_rows
Holds-commit_rows job name r [] h = h
Holds-commit_rows job name r (x ∷ xs) (inl (e, p)) = inl (commit_row-committed job name r x e p)
Holds-commit_rows job name r (x ∷ xs) (inr h) = inr (Holds-commit_rows job name r xs h)

written : (u t : Db) → some u ≡ some t → u ≡ t
written u t h = cc

put : (r : FileRow) (u t : Db) → some u ≡ some t → Holds r u.files → Holds r t.files
put r u t h p = subst (λ (v : Db). Holds r v.files) (written u t h) p

grown :
    (s : Db) (r : FileRow) (t : Db)
    → (if any (has_key r.jobid r.filename) s.files
        then none
        else some (record s { files = s.files ++ r ∷ [] }))
      ≡ some t
    → Kept s t
grown s r t h q p = elim (Bool-cases (any (has_key r.jobid r.filename) s.files)) [
  | inl e ↦ cc
  | inr e ↦ put q (record s { files = s.files ++ r ∷ [] }) t (cc) (Holds-append q r s.files p)
]

same_files : (s t : Db) → s.files ≡ t.files → Kept s t
same_files s t e r p = subst (λ (l : List FileRow). Holds r l) e p

Keeps-insert_file : (r : FileRow) → Keeps (insert_file r)
unfolding insert_file
Keeps-insert_file r = Keeps-change _ (λ s t h. grown s r t h)

Keeps-insert_user : (u : UserRow) → Keeps (insert_user u)
unfolding insert_user
Keeps-insert_user u = Keeps-change _ λ s t h. same_files s t (ground arith)

Keeps-insert_job : (j : JobRow) → Keeps (insert_job j)
unfolding insert_job
Keeps-insert_job j = Keeps-change _ λ s t h. same_files s t (ground arith)

Keeps-expire : (key : Bytes) (now : ℕ) → Keeps (expire key now)
unfolding expire
Keeps-expire key now = Keeps-change _ λ s t h r p.
    put r (record s { files = unexpired key now s.files }) t h (Holds-unexpired key now r s.files p)

Keeps-commit : (job name : Bytes) → Keeps (commit job name)
unfolding commit
Keeps-commit job name = Keeps-change _ λ s t h r p.
    put r (record s { files = commit_rows job name s.files }) t h
      (Holds-commit_rows job name r s.files p)

Keeps-required : {A : Type 0} (o : Option A) → Keeps (required o)
Keeps-required none s r p = p
Keeps-required (some a) s r p = p

Keeps-made : (e : ℕ) → Keeps (made e)
Keeps-made e s r p = elim (Bool-cases (e == 0)) [ inl q ↦ rw q p | inr q ↦ rw q p ]

Keeps-same_peer : (id : Bytes) (x : FileRow) → Keeps (same_peer id x)
Keeps-same_peer id x s r p = elim (Bool-cases (same id x.ul_userid)) [
  | inl q ↦ rw q p
  | inr q ↦ rw q p
]

module _ (hash : Bytes → Bytes) (mkdirpath : Bytes → ℕ) (cfg : Config) where
  Keeps-register_job :
      (now : ℕ) (job owner : Bytes) → Keeps (register_job hash mkdirpath cfg now job owner)
  unfolding register_job
  Keeps-register_job now job owner =
      Keeps-bind (from (job_key job)) _ (λ s r p. p)
        λ key.
          Keeps-bind (insert_user _) _ (Keeps-insert_user _)
            λ a. Keeps-bind (insert_job _) _ (Keeps-insert_job _) λ b. Keeps-made _

  Keeps-start_upload :
      (now : ℕ) (peer job class : Bytes) (name : Option Bytes) (before : Option ℕ)
      → Keeps (start_upload hash mkdirpath cfg now peer job class name before)
  unfolding start_upload
  Keeps-start_upload now peer job class name before =
      Keeps-bind (from (job_key job)) _ (λ s r p. p)
        λ key. Keeps-bind (query _) _ (Keeps-query _) λ found.
          Keeps-bind (required found) _ (Keeps-required found) λ j.
            Keeps-bind (from (deadline_of now before)) _ (λ s r p. p)
              λ deadline. Keeps-bind (insert_user _) _ (Keeps-insert_user _) λ a.
                Keeps-bind (expire key now) _ (Keeps-expire key now)
                  λ b. Keeps-bind (insert_file _) _ (Keeps-insert_file _) λ c s r p. p

  Keeps-commit_upload : (peer url : Bytes) → Keeps (commit_upload hash mkdirpath cfg peer url)
  unfolding commit_upload
  Keeps-commit_upload peer url = Keeps-bind (query _) _ (Keeps-query _) λ found.
      Keeps-bind (required found) _ (Keeps-required found) λ x.
        Keeps-bind (same_peer (hash peer) x) _ (Keeps-same_peer (hash peer) x)
          λ a. Keeps-commit x.jobid x.filename

  Keeps-destination_info : (url : Bytes) → Keeps (destination_info url)
  unfolding destination_info
  Keeps-destination_info url =
      Keeps-bind (query _) _ (Keeps-query _)
        λ found. Keeps-bind (required found) _ (Keeps-required found) λ x s r p. p

  -- One call of the storage, whatever it returns.
  pub data Step : Db → Db → Type 0 where
    registers :
        (s : Db) (now : ℕ) (job owner : Bytes)
        → Step s (register_job hash mkdirpath cfg now job owner s).1
    starts :
        (s : Db) (now : ℕ) (peer job class : Bytes) (name : Option Bytes) (before : Option ℕ)
        → Step s (start_upload hash mkdirpath cfg now peer job class name before s).1
    commits : (s : Db) (peer url : Bytes) → Step s (commit_upload hash mkdirpath cfg peer url s).1
    asks : (s : Db) (url : Bytes) → Step s (destination_info url s).1

  pub data Steps : Db → Db → Type 0 where
    stay : (s : Db) → Steps s s
    call : (s t u : Db) → Step s t → Steps t u → Steps s u

  Kept-Step : (s t : Db) → Step s t → Kept s t
  Kept-Step s t (registers s' now job owner) = Keeps-register_job now job owner s'
  Kept-Step s t (starts s' now peer job class name before) =
      Keeps-start_upload now peer job class name before s'
  Kept-Step s t (commits s' peer url) = Keeps-commit_upload peer url s'
  Kept-Step s t (asks s' url) = Keeps-destination_info url s'

  -- A committed file is never lost: after any sequence of calls, whatever they return and whatever
  -- the database refuses, it is still there, committed, with its job, name, paths and user.
  pub Steps-Kept : (s t : Db) (r : FileRow) → Steps s t → Holds r s.files → Holds r t.files
  Steps-Kept s t r (stay s') p = p
  Steps-Kept s t r (call s' m t' h hs) p = Steps-Kept m t' r hs (Kept-Step s' m h r p)
