-- ===== src/Feed/Store/Marks.antt =====
-- The marks of a list of jobs for a feed, as drain_feed of org.glite.jp.primary/src/feed.c sets them.
use glite_jp.Base.{
  [], ◌∷◌, ◌++◌, Bytes, Bool, Bool-cases, true, false, inl, inr, same_refl, Outcome, ok, err, fault,
  List, All, map, ◌≡◌, refl, ap, arith,
}
use glite_jp.Base.Act.{after}
use glite_jp.Uploads.Tables.{any, is_down, rest}
use glite_jp.Feed.Store.{FedJob, FeedTables, unique_key, is_mark, with_mark, set_fed, exec_sql}

-- the calls of set_fed, one after the other, whatever they return
unfoldable pub set_fed_all : Bytes → List Bytes → FeedTables → FeedTables
set_fed_all id [] s = s
set_fed_all id (job ∷ jobs) s = set_fed_all id jobs (set_fed id job s).1

-- The job is marked for the feed, if it has a key.
abbrev pub IsFed : Bytes → FeedTables → Bytes → Type 0
IsFed id s job = (key : Bytes) → unique_key job ≡ ok key → any (is_mark id key) s.fed_jobs ≡ true

-- The marks of the feed stay, and a database that works goes on working.
abbrev Longer : Bytes → FeedTables → FeedTables → Type 0
Longer id s t =
    ((key : Bytes)
      → any (is_mark id key) s.fed_jobs ≡ true
      → any (is_mark id key) t.fed_jobs ≡ true)
    × (s.outages ≡ [] → t.outages ≡ [])

any_longer :
    (P : FedJob → Bool) (xs : List FedJob) (x : FedJob)
    → any P xs ≡ true
    → any P (xs ++ x ∷ []) ≡ true
any_longer P [] x h = absurd (ground arith)
any_longer P (y ∷ xs) x h = elim (Bool-cases (P y)) [
  | inl e ↦ rw e refl
  | inr e ↦ rw e (any_longer P xs x (ground arith))
]

any_last :
    (id key : Bytes) (xs : List FedJob)
    → any (is_mark id key) (xs ++ record { feedid = id; jobid = key } ∷ []) ≡ true
any_last id key [] = rw (same_refl key, same_refl id) refl
any_last id key (y ∷ xs) = rw (any_last id key xs) ground arith

keyed-Longer :
    (id : Bytes) (m : Outcome Bytes) (s : FeedTables)
    → Longer id s (after (m, s) λ key. exec_sql (with_mark id key)).1
unfolding exec_sql
keyed-Longer id (ok key) s = elim (Bool-cases (is_down s.outages)) [
  | inl d ↦ rw d ((λ k h. h), ap (λ (l : List Bool). rest l))
  | inr d ↦ elim (Bool-cases (any (is_mark id key) s.fed_jobs)) [
    | inl n ↦ rw (d, n) ((λ k h. h), ap (λ (l : List Bool). rest l))
    | inr n ↦
        rw (d, n)
          ((λ k h. any_longer (is_mark id k) s.fed_jobs _ h), ap (λ (l : List Bool). rest l))
  ]
]
keyed-Longer id (err e) s = ((λ k h. h), λ h. h)
keyed-Longer id fault s = ((λ k h. h), λ h. h)

set_fed-Longer : (id job : Bytes) (s : FeedTables) → Longer id s (set_fed id job s).1
unfolding set_fed
set_fed-Longer id job s = keyed-Longer id (unique_key job) s

set_fed-IsFed :
    (id job : Bytes) (s : FeedTables) → s.outages ≡ [] → IsFed id (set_fed id job s).1 job
unfolding set_fed exec_sql
set_fed-IsFed id job s o key h =
    let d : is_down s.outages ≡ false = ap (λ (l : List Bool). is_down l) o in
    elim (Bool-cases (any (is_mark id key) s.fed_jobs)) [
      | inl n ↦ rw (h, d, n) n
      | inr n ↦ rw (h, d, n) (any_last id key s.fed_jobs)
    ]

set_fed_all-Longer :
    (id : Bytes) (jobs : List Bytes) (s : FeedTables) → Longer id s (set_fed_all id jobs s)
unfolding set_fed_all
set_fed_all-Longer id [] s = ((λ k h. h), λ h. h)
set_fed_all-Longer id (job ∷ jobs) s =
    let (a, b) = set_fed-Longer id job s in
    let (c, d) = set_fed_all-Longer id jobs (set_fed id job s).1 in
    ((λ k h. c k (a k h)), λ h. d (b h))

-- On a database that works each of the jobs that has a key is then marked.
pub set_fed_all-IsFed :
    {A : Type 0} (id : Bytes) (name : A → Bytes) (js : List A) (s : FeedTables)
    → s.outages ≡ []
    → All (λ (j : A). IsFed id (set_fed_all id (map name js) s) (name j)) js
unfolding set_fed_all
set_fed_all-IsFed id name [] s o = tt
set_fed_all-IsFed id name (j ∷ js) s o = (
  (λ key h.
      (set_fed_all-Longer id (map name js) (set_fed id (name j) s).1).0 key
        (set_fed-IsFed id (name j) s o key h)),
  set_fed_all-IsFed id name js (set_fed id (name j) s).1 ((set_fed-Longer id (name j) s).1 o),
)
