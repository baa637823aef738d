-- ===== src/Feed/Updates/Safe.antt =====
-- A job is marked only where it was sent whole.
use glite_jp.Base.{
  ℕ, zero, suc, [], ◌∷◌, ◌++◌, Bytes, Bool, Bool-cases, true, false, inl, inr, Option, some, none,
  Outcome, ok, err, fault, List, ◌≡◌, refl, sym, ap, ◌∙◌,
}
use glite_jp.Base.Act.{after}
use glite_jp.Types.{AttrVal}
use glite_jp.Attr.Codec.{Base64}
use glite_jp.Attr.Plugins.{TypePlugin}
use glite_jp.Uploads.Tables.{any, is_down}
use glite_jp.Feed.Batch.{owner_attr}
use glite_jp.Feed.Matching.{is_feed_matching, first_named}
use glite_jp.Feed.Store.{FeedTables, unique_key, is_mark, set_fed, check_fed, select}
use glite_jp.Feed.Columns.{JpFeed}
use glite_jp.Feed.Updates.{
  Update, World, full_feed, match_feed, single_feed, feed_attempts, retried, answered_by, ignored,
  if_sent, send_as, send_full, if_matching, on_tables, value_or_null,
}
use glite_jp.Feed.Updates.Once.{update_of}

-- An accepted update is the last one, and the tables are as they were.
abbrev Sent : Update → World → Outcome (Unit {0}) × World → Type 0
Sent u w (ok x, v) = (v.updates ≡ w.updates ++ u ∷ []) × (v.tables ≡ w.tables)
Sent u w (err e, v) = v.tables ≡ w.tables
Sent u w (fault, v) = v.tables ≡ w.tables

-- The refusals to come do not matter.
Sent-refusals :
    (u : Update) (w : World) (l : List Bool) (r : Outcome (Unit {0}) × World)
    → Sent u (record w { refusals = l }) r
    → Sent u w r
Sent-refusals u w l (ok x, v) h = h
Sent-refusals u w l (err e, v) h = h
Sent-refusals u w l (fault, v) h = h

feed_attempts-Sent : (n : ℕ) (u : Update) (w : World) → Sent u w (feed_attempts n u w)
unfolding feed_attempts
feed_attempts-Sent zero u w = refl
feed_attempts-Sent (suc n) u w = by_answer w.refusals (feed_attempts-Sent n u)
  where
    by_answer :
        (l : List Bool)
        → ((v : World) → Sent u v (feed_attempts n u v))
        → Sent u w (retried (answered_by l u w) (feed_attempts n u))
    by_answer [] h = (refl, refl)
    by_answer (false ∷ l) h = (refl, refl)
    by_answer (true ∷ l) h =
        Sent-refusals u w l (feed_attempts n u (record w { refusals = l }))
          (h (record w { refusals = l }))

pub ignored_state {ℓ} : {A : Type ℓ} (r : Outcome A × World) → (ignored r).1 ≡ r.1
ignored_state (ok a, w) = refl
ignored_state (err e, w) = refl
ignored_state (fault, w) = refl

checked_marks :
    (id : Bytes) (s : FeedTables) (m : Outcome Bytes)
    → (after (m, s) λ key. select (λ t. any (is_mark id key) t.fed_jobs)).1.fed_jobs ≡ s.fed_jobs
unfolding select
checked_marks id s (ok key) = elim (Bool-cases (is_down s.outages)) [
  | inl e ↦ rw e refl
  | inr e ↦ rw e refl
]
checked_marks id s (err e) = refl
checked_marks id s fault = refl

check_fed_marks : (id job : Bytes) (s : FeedTables) → (check_fed id job s).1.fed_jobs ≡ s.fed_jobs
unfolding check_fed
check_fed_marks id job s = checked_marks id s (unique_key job)

module _ (b : Base64) (ps : List TypePlugin)
    (get_attrs : Bytes → List Bytes → Outcome (List AttrVal)) (owner_of_job : Bytes → Option Bytes)
    (f : JpFeed) (job key : Bytes) where
  abbrev marked_in : World → Bool
  marked_in w = any (is_mark f.id key) w.tables.fed_jobs

  -- If the job is then marked, its attributes were sent.
  abbrev Proved : World → Outcome (Unit {0}) × World → Type 0
  Proved w r =
      marked_in r.1 ≡ true
      → (a : List AttrVal) × (o : Bytes) × (full_feed b ps get_attrs owner_of_job f job ≡ ok a)
        × (r.1.updates ≡ w.updates ++ update_of f job o a ∷ [])

  unmarked_Proved :
      (w : World) (r : Outcome (Unit {0}) × World)
      → marked_in w ≡ false
      → r.1.tables.fed_jobs ≡ w.tables.fed_jobs
      → Proved w r
  unmarked_Proved w r n e h = let q : true ≡ false = sym h ∙ ap (any (is_mark f.id key)) e ∙ n in cc

  -- with the marks of `w` from before the query for them
  whole_Proved :
      (w : World) (t : FeedTables) (a : List AttrVal) (v : Option AttrVal)
      → marked_in w ≡ false
      → t.fed_jobs ≡ w.tables.fed_jobs
      → full_feed b ps get_attrs owner_of_job f job ≡ ok a
      → Proved w (
          if_sent
            (single_feed f job (value_or_null v) a (record w { tables = t }))
            (on_tables (set_fed f.id job)))
  unfolding single_feed
  whole_Proved w t a none n e g = unmarked_Proved w (fault, record w { tables = t }) n e
  whole_Proved w t a (some o) n e g =
      by_result (feed_attempts 10 (update_of f job o.value a) (record w { tables = t }))
        (feed_attempts-Sent 10 (update_of f job o.value a) (record w { tables = t }))
    where
      by_result :
          (r : Outcome (Unit {0}) × World)
          → Sent (update_of f job o.value a) (record w { tables = t }) r
          → Proved w (if_sent r (on_tables (set_fed f.id job)))
      by_result (ok x, v) (h, k) = λ m. (
        a,
        o.value,
        g,
        ap (λ (u : World). u.updates) (ignored_state (on_tables (set_fed f.id job) v)) ∙ h,
      )
      by_result (err c, v) h =
          unmarked_Proved w (ok tt, v) n (ap (λ (u : FeedTables). u.fed_jobs) h ∙ e)
      by_result (fault, v) h =
          unmarked_Proved w (fault, v) n (ap (λ (u : FeedTables). u.fed_jobs) h ∙ e)

  new_Proved :
      (w : World) (t : FeedTables) (attrs : List AttrVal) (o : Option Bytes)
      → marked_in w ≡ false
      → t.fed_jobs ≡ w.tables.fed_jobs
      → Proved w (ignored (single_feed f job o attrs (record w { tables = t })))
  unfolding single_feed
  new_Proved w t attrs none n e = unmarked_Proved w (fault, record w { tables = t }) n e
  new_Proved w t attrs (some o) n e =
      by_result (feed_attempts 10 (update_of f job o attrs) (record w { tables = t }))
        (feed_attempts-Sent 10 (update_of f job o attrs) (record w { tables = t }))
    where
      by_result :
          (r : Outcome (Unit {0}) × World)
          → Sent (update_of f job o attrs) (record w { tables = t }) r
          → Proved w (ignored r)
      by_result (ok x, v) (h, k) =
          unmarked_Proved w (ok tt, v) n (ap (λ (u : FeedTables). u.fed_jobs) k ∙ e)
      by_result (err c, v) h =
          unmarked_Proved w (ok tt, v) n (ap (λ (u : FeedTables). u.fed_jobs) h ∙ e)
      by_result (fault, v) h =
          unmarked_Proved w (fault, v) n (ap (λ (u : FeedTables). u.fed_jobs) h ∙ e)

  full_Proved :
      (w : World) (t : FeedTables) (m : Outcome (List AttrVal))
      → marked_in w ≡ false
      → t.fed_jobs ≡ w.tables.fed_jobs
      → full_feed b ps get_attrs owner_of_job f job ≡ m
      → Proved w (send_full b ps get_attrs owner_of_job f job m (record w { tables = t }))
  full_Proved w t (ok a) n e g = whole_Proved w t a (first_named owner_attr a) n e g
  full_Proved w t (err c) n e g = unmarked_Proved w (fault, record w { tables = t }) n e
  full_Proved w t fault n e g = unmarked_Proved w (fault, record w { tables = t }) n e

  as_Proved :
      (w : World) (attrs : List AttrVal) (r : Outcome Bool × FeedTables)
      → marked_in w ≡ false
      → r.1.fed_jobs ≡ w.tables.fed_jobs
      → Proved w (send_as b ps get_attrs owner_of_job f job attrs (r.0, record w { tables = r.1 }))
  as_Proved w attrs (ok false, t) n e =
      full_Proved w t (full_feed b ps get_attrs owner_of_job f job) n e refl
  as_Proved w attrs (ok true, t) n e = new_Proved w t attrs (owner_of_job job) n e
  as_Proved w attrs (err c, t) n e = unmarked_Proved w (fault, record w { tables = t }) n e
  as_Proved w attrs (fault, t) n e = unmarked_Proved w (fault, record w { tables = t }) n e

  matching_Proved :
      (w : World) (attrs : List AttrVal) (m : Outcome Bool)
      → marked_in w ≡ false
      → Proved w (if_matching b ps get_attrs owner_of_job f job attrs m w)
  matching_Proved w attrs (ok true) n =
      as_Proved w attrs (check_fed f.id job w.tables) n (check_fed_marks f.id job w.tables)
  matching_Proved w attrs (ok false) n = unmarked_Proved w (ok tt, w) n refl
  matching_Proved w attrs (err c) n = unmarked_Proved w (ok tt, w) n refl
  matching_Proved w attrs fault n = unmarked_Proved w (fault, w) n refl

  -- Whatever the database and the index server refuse: if a job, by its key, is not marked for the
  -- feed before a call of `match_feed` and is marked behind it, then the attributes of the feed were
  -- read, and the call sent all of them, and nothing else.
  pub match_feed_marks :
      (w : World) (attrs : List AttrVal)
      → any (is_mark f.id key) w.tables.fed_jobs ≡ false
      → any
          (is_mark f.id key)
          (match_feed b ps get_attrs owner_of_job f job attrs w).1.tables.fed_jobs
        ≡ true
      → (a : List AttrVal) × (o : Bytes) × (full_feed b ps get_attrs owner_of_job f job ≡ ok a)
        × ((match_feed b ps get_attrs owner_of_job f job attrs w).1.updates
            ≡ w.updates ++ update_of f job o a ∷ [])
  unfolding match_feed
  match_feed_marks w attrs n h =
      matching_Proved w attrs (is_feed_matching b ps get_attrs (some f.qry) job attrs) n h
