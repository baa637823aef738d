-- ===== src/Index/Jobs/Table.antt =====
-- The tables of jobs, users and attribute values of the index server, and the statements that
-- db_ops.c executes on them.
use glite_jp.Base.{
  ℕ, [], ◌∷◌, ◌++◌, Bytes, same, Bool, true, false, ◌||◌, Option, some, none, ◌==◌, if◌then◌else◌,
  ok, List,
}
use glite_jp.Base.Act.{Act}
use glite_jp.Index.Feeds.Table.{FeedRow, failing, remaining}

-- `columns` are the single-valued attributes, by their identifier.
pub record IndexJob : Type 0 where
  pub jobid : Bytes
  pub dg_jobid : Bytes
  pub ownerid : Bytes
  pub ps : Bytes
  pub columns : List (Bytes × Bytes)

pub record IndexUser : Type 0 where
  pub userid : Bytes
  pub cert_subj : Bytes

-- a row of the table `attr_<table>`
pub record AttrRow : Type 0 where
  pub table : Bytes
  pub jobid : Bytes
  pub value : Bytes
  pub full_value : Option Bytes
  pub origin : ℕ

-- `outages` tells for the statements to come whether the database fails; behind its end it works.
pub record JobsDb : Type 0 where
  pub jobs : List IndexJob
  pub users : List IndexUser
  pub values : List AttrRow
  pub feeds : List FeedRow
  pub outages : List Bool

abbrev pub JobRun {ℓ} : Type ℓ → Type ℓ
JobRun A = Act JobsDb A

-- A statement: `none` is a failure, the -1 of the library.
unfoldable pub ask {ℓ} : {A : Type ℓ} → (JobsDb → A) → JobRun (Option A)
ask f s =
    if failing s.outages
    then (ok none, record s { outages = remaining s.outages })
    else (ok (some (f s)), record s { outages = remaining s.outages })

-- An insertion, which a duplicate key refuses.
unfoldable pub insert : (JobsDb → Option JobsDb) → JobRun Bool
insert f s =
    if failing s.outages
    then (ok false, record s { outages = remaining s.outages })
    else elim (f (record s { outages = remaining s.outages })) [
      | none ↦ (ok false, record s { outages = remaining s.outages })
      | some t ↦ (ok true, t)
    ]

unfoldable pub has_job : Bytes → List IndexJob → Bool
has_job key [] = false
has_job key (j ∷ js) = if same key j.jobid then true else has_job key js

unfoldable pub has_name : Bytes → List IndexJob → Bool
has_name name [] = false
has_name name (j ∷ js) = if same name j.dg_jobid then true else has_name name js

unfoldable pub has_user : Bytes → List IndexUser → Bool
has_user key [] = false
has_user key (u ∷ us) = if same key u.userid then true else has_user key us

unfoldable pub has_subject : Bytes → List IndexUser → Bool
has_subject name [] = false
has_subject name (u ∷ us) = if same name u.cert_subj then true else has_subject name us

-- primary key (jobid), unique (dg_jobid)
abbrev pub with_job : IndexJob → JobsDb → Option JobsDb
with_job j s =
    if has_job j.jobid s.jobs || has_name j.dg_jobid s.jobs
    then none
    else some (record s { jobs = s.jobs ++ j ∷ [] })

-- primary key (userid), unique (cert_subj)
abbrev pub with_user : IndexUser → JobsDb → Option JobsDb
with_user u s =
    if has_user u.userid s.users || has_subject u.cert_subj s.users
    then none
    else some (record s { users = s.users ++ u ∷ [] })

-- The value that a job had in a column.
abbrev pub set_column : Bytes → Bytes → List (Bytes × Bytes) → List (Bytes × Bytes)
set_column id v [] = (id, v) ∷ []
set_column id v ((k, w) ∷ l) = if same id k then (id, v) ∷ l else (k, w) ∷ set_column id v l

unfoldable pub set_single : Bytes → Bytes → Bytes → List IndexJob → List IndexJob
set_single name id v [] = []
set_single name id v (j ∷ js) =
    (if same name j.dg_jobid then record j { columns = set_column id v j.columns } else j)
    ∷ set_single name id v js

abbrev pub feed_of : Bytes → List FeedRow → Option FeedRow
feed_of id [] = none
feed_of id (r ∷ rs) = elim r.feedid [
  | some f ↦ if same id f then some r else feed_of id rs
  | none ↦ feed_of id rs
]

abbrev pub set_state : ℕ → ℕ → FeedRow → FeedRow
set_state id state r = if id == r.uniqueid then record r { state = state } else r

unfoldable pub set_states : ℕ → ℕ → List FeedRow → List FeedRow
set_states id state [] = []
set_states id state (r ∷ rs) = set_state id state r ∷ set_states id state rs
