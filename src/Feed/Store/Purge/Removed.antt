-- ===== src/Feed/Store/Purge/Removed.antt =====
-- What a purge of feeds removes on a database that works.
use glite_jp.Base.{
  ℕ, ◌<◌, ◌≤◌, ltb, [], ◌∷◌, Bytes, same, Bool-cases, true, false, inl, inr, ok, List, All, ◌≡◌,
  ◌⊎◌, refl, ap, ◌∙◌, arith,
}
use glite_jp.Uploads.Tables.{any}
use glite_jp.Feed.Store.{
  SavedFeed, FedJob, FeedTables, select, exec_sql, is_mark, overdue, unmarked, delete_marks,
  standing, purge_feeds,
}
use glite_jp.Feed.Store.Purge.{Stored}

abbrev pub working : List SavedFeed → List FedJob → FeedTables
working fs ms = record { feeds = fs; fed_jobs = ms; outages = [] }

abbrev unmarked_each : List Bytes → List FedJob → List FedJob
unmarked_each [] ms = ms
unmarked_each (x ∷ ids) ms = unmarked_each ids (unmarked x ms)

abbrev Listed : Bytes → List Bytes → Type 0
Listed x [] = ⊥
Listed x (y ∷ l) = (y ≡ x) ⊎ Listed x l

deleted :
    (ids : List Bytes) (fs : List SavedFeed) (ms : List FedJob)
    → delete_marks ids (working fs ms) ≡ (ok tt, working fs (unmarked_each ids ms))
unfolding delete_marks exec_sql
deleted [] fs ms = refl
deleted (x ∷ ids) fs ms = deleted ids fs (unmarked x ms)

gone_one : (id key : Bytes) (ms : List FedJob) → any (is_mark id key) (unmarked id ms) ≡ false
gone_one id key [] = refl
gone_one id key (r ∷ ms) = elim (Bool-cases (same id r.feedid)) [
  | inl e ↦ rw e (gone_one id key ms)
  | inr e ↦ rw (e, e, gone_one id key ms) ground arith
]

stays_gone :
    (x id key : Bytes) (ms : List FedJob)
    → any (is_mark id key) ms ≡ false
    → any (is_mark id key) (unmarked x ms) ≡ false
stays_gone x id key [] h = h
stays_gone x id key (r ∷ ms) h = elim (Bool-cases (same x r.feedid)) [
  | inl e ↦ rw e (stays_gone x id key ms (ground arith))
  | inr e ↦ rw e (ground (arith, stays_gone x id key ms))
]

stay_gone :
    (ids : List Bytes) (id key : Bytes) (ms : List FedJob)
    → any (is_mark id key) ms ≡ false
    → any (is_mark id key) (unmarked_each ids ms) ≡ false
stay_gone [] id key ms h = h
stay_gone (x ∷ ids) id key ms h = stay_gone ids id key (unmarked x ms) (stays_gone x id key ms h)

all_gone :
    (ids : List Bytes) (id key : Bytes) (ms : List FedJob)
    → Listed id ids
    → any (is_mark id key) (unmarked_each ids ms) ≡ false
all_gone [] id key ms h = absurd h
all_gone (x ∷ ids) id key ms (inl e) =
    stay_gone ids id key (unmarked x ms)
      (ap (λ (y : Bytes). any (is_mark id key) (unmarked y ms)) e ∙ gone_one id key ms)
all_gone (x ∷ ids) id key ms (inr h) = all_gone ids id key (unmarked x ms) h

past-Listed :
    (now : ℕ) (f : SavedFeed) (fs : List SavedFeed)
    → Stored f fs
    → f.expires < now
    → Listed f.feedid (overdue now fs)
past-Listed now f [] s h = s
past-Listed now f (x ∷ fs) (inl e) h =
    let q : ltb x.expires now ≡ true = ap (λ (g : SavedFeed). ltb g.expires now) e ∙ ground arith in
    rw q (inl (ap (λ (g : SavedFeed). g.feedid) e))
past-Listed now f (x ∷ fs) (inr s) h = elim (Bool-cases (ltb x.expires now)) [
  | inl e ↦ rw e (inr (past-Listed now f fs s h))
  | inr e ↦ rw e (past-Listed now f fs s h)
]

live_rest :
    (now : ℕ) (fs : List SavedFeed) → All (λ (g : SavedFeed). now ≤ g.expires) (standing now fs)
live_rest now [] = tt
live_rest now (f ∷ fs) = elim (Bool-cases (ltb f.expires now)) [
  | inl e ↦ rw e (live_rest now fs)
  | inr e ↦ rw e (ground arith, live_rest now fs)
]

-- On a database that works a purge at the time `now` succeeds, each feed that is left ends at `now` or
-- later, and no mark is left of a stored feed that ends before `now`, by its identifier.
pub purge_feeds_removes :
    (now : ℕ) (f : SavedFeed) (key : Bytes) (fs : List SavedFeed) (ms : List FedJob)
    → Stored f fs
    → f.expires < now
    → (t : FeedTables) × (purge_feeds now (working fs ms) ≡ (ok tt, t))
      × All (λ (g : SavedFeed). now ≤ g.expires) t.feeds
      × (any (is_mark f.feedid key) t.fed_jobs ≡ false)
unfolding purge_feeds select exec_sql
purge_feeds_removes now f key fs ms s h = (
  working (standing now fs) (unmarked_each (overdue now fs) ms),
  rw (deleted (overdue now fs) fs ms) refl,
  live_rest now fs,
  all_gone (overdue now fs) f.feedid key ms (past-Listed now f fs s h),
)
