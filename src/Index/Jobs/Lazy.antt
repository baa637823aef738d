-- ===== src/Index/Jobs/Lazy.antt =====
-- What glite_jpis_lazyInsertJob promises, and where it does not keep it.
use glite_jp.Base.{
  [], ◌∷◌, ◌++◌, Bytes, same, same_refl, Bool, true, false, ◌||◌, Option, some, none, if◌then◌else◌,
  Outcome, ok, List, eio, ◌≡◌, refl, ap, ◌∙◌, Bool-cases, inl, inr,
}
use glite_jp.Base.Act.{after, give, refuse}
use glite_jp.Index.Jobs.Table.{
  IndexJob, IndexUser, JobsDb, ask, insert, has_job, has_name, has_user, has_subject, with_job,
  with_user,
}
use glite_jp.Index.Jobs.{unless_found, ensure_job, ensure_user, lazy_insert_job}

has_job-append :
    (key : Bytes) (j : IndexJob) (js : List IndexJob)
    → same key j.jobid ≡ true
    → has_job key (js ++ j ∷ []) ≡ true
unfolding has_job
has_job-append key j [] h = rw h refl
has_job-append key j (x ∷ js) h = elim (Bool-cases (same key x.jobid)) [
  | inl e ↦ rw e refl
  | inr e ↦ rw e (has_job-append key j js h)
]

has_user-append :
    (key : Bytes) (u : IndexUser) (us : List IndexUser)
    → same key u.userid ≡ true
    → has_user key (us ++ u ∷ []) ≡ true
unfolding has_user
has_user-append key u [] h = rw h refl
has_user-append key u (x ∷ us) h = elim (Bool-cases (same key x.userid)) [
  | inl e ↦ rw e refl
  | inr e ↦ rw e (has_user-append key u us h)
]

insert_lem :
    (f : JobsDb → Option JobsDb) (s t : JobsDb)
    → f (record s { outages = [] }) ≡ some t
    → insert f (record s { outages = [] }) ≡ (ok true, t)
unfolding insert
insert_lem f s t e = rw e refl

module _ (hash : Bytes → Bytes) where
  -- the job is there, by its key, and so is the user
  abbrev pub IsListed : Bytes → Bytes → JobsDb → Type 0
  IsListed job owner s = (has_job (hash job) s.jobs ≡ true) × (has_user (hash owner) s.users ≡ true)

  -- a database that works
  abbrev pub working : JobsDb → JobsDb
  working s = record s { outages = [] }

  abbrev new_job : Bytes → Bytes → Bytes → IndexJob
  new_job ps job owner = record {
    jobid = hash job;
    dg_jobid = job;
    ownerid = hash owner;
    ps = ps;
    columns = [];
  }

  abbrev new_user : Bytes → IndexUser
  new_user owner = record { userid = hash owner; cert_subj = owner }

  ensure_job_lem :
      (ps job owner : Bytes) (s : JobsDb)
      → (has_job (hash job) s.jobs ≡ false → has_name job s.jobs ≡ false)
      → (js : List IndexJob) × (ensure_job hash ps job owner (working s)
          ≡ (ok tt, working (record s { jobs = js })))
        × (has_job (hash job) js ≡ true)
  unfolding ask
  ensure_job_lem ps job owner s h = elim (Bool-cases (has_job (hash job) s.jobs)) [
    | inl e ↦ (s.jobs, rw e refl, e)
    | inr e ↦ (
      s.jobs ++ new_job ps job owner ∷ [],
      ap
            (λ (c : Bool).
              unless_found (some c) (insert (with_job (new_job ps job owner))) (working s))
            e
          ∙ ap (λ (x : Outcome Bool × JobsDb). after x λ done. if done then give tt else refuse eio)
              (insert_lem (with_job (new_job ps job owner)) s
                (working (record s { jobs = s.jobs ++ new_job ps job owner ∷ [] }))
                (ap
                    (λ (c : Bool).
                      if c || has_name job s.jobs
                      then none
                      else some (working (record s { jobs = s.jobs ++ new_job ps job owner ∷ [] })))
                    e
                  ∙ ap
                      (λ (c : Bool).
                        if c
                        then none
                        else some
                            (working (record s { jobs = s.jobs ++ new_job ps job owner ∷ [] })))
                      (h e))),
      has_job-append (hash job) (new_job ps job owner) s.jobs (same_refl (hash job)),
    )
  ]

  ensure_user_lem :
      (owner : Bytes) (s : JobsDb)
      → (has_user (hash owner) s.users ≡ false → has_subject owner s.users ≡ false)
      → (us : List IndexUser) × (ensure_user hash owner (working s)
          ≡ (ok tt, working (record s { users = us })))
        × (has_user (hash owner) us ≡ true)
  unfolding ask
  ensure_user_lem owner s h = elim (Bool-cases (has_user (hash owner) s.users)) [
    | inl e ↦ (s.users, rw e refl, e)
    | inr e ↦ (
      s.users ++ new_user owner ∷ [],
      ap (λ (c : Bool). unless_found (some c) (insert (with_user (new_user owner))) (working s)) e
          ∙ ap (λ (x : Outcome Bool × JobsDb). after x λ done. if done then give tt else refuse eio)
              (insert_lem (with_user (new_user owner)) s
                (working (record s { users = s.users ++ new_user owner ∷ [] }))
                (ap
                    (λ (c : Bool).
                      if c || has_subject owner s.users
                      then none
                      else some (working (record s { users = s.users ++ new_user owner ∷ [] })))
                    e
                  ∙ ap
                      (λ (c : Bool).
                        if c
                        then none
                        else some (working (record s { users = s.users ++ new_user owner ∷ [] })))
                      (h e))),
      has_user-append (hash owner) (new_user owner) s.users (same_refl (hash owner)),
    )
  ]

  -- On a database that works, a call for a job and an owner that are there changes nothing.
  lazy_insert_job_again :
      (ps job owner : Bytes) (s : JobsDb)
      → IsListed job owner s
      → lazy_insert_job hash ps (some job) (some owner) (working s) ≡ (ok tt, working s)
  unfolding lazy_insert_job ask
  lazy_insert_job_again ps job owner s (hj, hu) = rw (hj, hu) refl

  -- On a database that works, if a job that is not there by its key is not there by its name either,
  -- and likewise the owner: the call succeeds, the job and the owner are then there, and a second
  -- call, for any storage, succeeds and changes nothing.
  pub lazy_insert_job-IsListed :
      (ps ps' job owner : Bytes) (s : JobsDb)
      → (has_job (hash job) s.jobs ≡ false → has_name job s.jobs ≡ false)
      → (has_user (hash owner) s.users ≡ false → has_subject owner s.users ≡ false)
      → (t : JobsDb) × (lazy_insert_job hash ps (some job) (some owner) (working s) ≡ (ok tt, t))
        × IsListed job owner t
        × (lazy_insert_job hash ps' (some job) (some owner) t ≡ (ok tt, t))
  unfolding lazy_insert_job
  lazy_insert_job-IsListed ps ps' job owner s h k =
      let p = ensure_job_lem ps job owner s h in
      let q = ensure_user_lem owner (record s { jobs = p.0 }) k in
      let t : JobsDb = record s { jobs = p.0; users = q.0 } in
      (
        working t,
        ap (λ (x : Outcome (Unit {0}) × JobsDb). after x λ a. ensure_user hash owner) p.1 ∙ q.1,
        (p.2, q.2),
        lazy_insert_job_again ps' job owner t (p.2, q.2),
      )
