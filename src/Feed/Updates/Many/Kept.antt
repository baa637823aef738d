-- ===== src/Feed/Updates/Many/Kept.antt =====
-- The marks of jobs behind match_feed_multi of org.glite.jp.primary/src/feed.c.
use glite_jp.Base.{
  ℕ, ◌⊎◌, arith, [], ◌∷◌, ◌++◌, Bytes, Bool, Bool-cases, true, false, Option, some, none, Outcome,
  ok, err, fault, List, All, All-append, ◌≡◌, inl, inr, refl, sym, ap, ◌∙◌, subst,
}
use glite_jp.Base.Act.{Act, after, give}
use glite_jp.Types.{AttrVal}
use glite_jp.Attr.Codec.{Base64}
use glite_jp.Attr.Plugins.{TypePlugin}
use glite_jp.Uploads.Tables.{is_down, rest, any}
use glite_jp.Feed.Store.{
  FedJob, FeedTables, is_mark, unique_key, select, exec_sql, set_fed, check_fed,
}
use glite_jp.Feed.Columns.{JpFeed}
use glite_jp.Feed.Updates.{Update, World, on_tables}
use glite_jp.Feed.Updates.Safe.{ignored_state}
use glite_jp.Feed.Updates.Many.{
  Chosen, chosen, with_owner, if_chosen, feed_jobs, set_mark, set_marks, choose_jobs,
  match_feed_multi,
}

-- If the flag of the job is set, marking the job changes no mark.
abbrev IsMarked : Bytes → List FedJob → Chosen → Type 0
IsMarked feed l c =
    c.mark ≡ true → (s : FeedTables) → s.fed_jobs ≡ l → (set_fed feed c.update.job s).1.fed_jobs ≡ l

set_again :
    (feed job key : Bytes) (s : FeedTables)
    → unique_key job ≡ ok key
    → any (is_mark feed key) s.fed_jobs ≡ true
    → (set_fed feed job s).1.fed_jobs ≡ s.fed_jobs
unfolding set_fed exec_sql
set_again feed job key s hk hm =
    rw hk (elim (Bool-cases (is_down s.outages)) [ inl e ↦ rw e refl | inr e ↦ rw (e, hm) refl ])

no_key :
    (feed job : Bytes) (x : ℕ) (s : FeedTables)
    → unique_key job ≡ err x
    → (set_fed feed job s).1.fed_jobs ≡ s.fed_jobs
unfolding set_fed
no_key feed job x s h = rw h refl

module _ (stale : World → Update → Bool) where
  -- The database works, or the memory of the flags holds zeros.
  abbrev pub Trusted : World → Type 0
  Trusted w = (w.tables.outages ≡ []) ⊎ ((v : World) (u : Update) → stale v u ≡ false)

  abbrev AreMarked : Bytes → List FedJob → Outcome (List Chosen) → Type 0
  AreMarked feed l (ok cs) = All (IsMarked feed l) cs
  AreMarked feed l (err e) = Unit
  AreMarked feed l fault = Unit

  -- The marks are as they were, and the flags tell of them.
  abbrev Chose : Bytes → List FedJob → Outcome (List Chosen) × World → Type 0
  Chose feed l r = (r.1.tables.fed_jobs ≡ l) × (Trusted r.1 × AreMarked feed l r.0)

  next-Trusted :
      (w : World)
      → Trusted w
      → Trusted (record w { tables = record (w.tables) { outages = rest w.tables.outages } })
  next-Trusted w (inl e) = inl (ap (λ (l : List Bool). rest l) e)
  next-Trusted w (inr h) = inr h

  down-IsMarked :
      (feed : Bytes) (u : Update) (w v : World)
      → Trusted w
      → is_down w.tables.outages ≡ true
      → IsMarked feed w.tables.fed_jobs (record { update = u; mark = stale v u })
  down-IsMarked feed u w v (inl e) d m =
      let q : false ≡ true = sym (ap (λ (l : List Bool). is_down l) e) ∙ d in absurd (ground arith)
  down-IsMarked feed u w v (inr h) d m =
      let q : false ≡ true = sym (h v u) ∙ m in absurd (ground arith)

  checked-Chose :
      (feed : Bytes) (u : Update) (w : World) (m : Outcome Bytes)
      → Trusted w
      → unique_key u.job ≡ m
      → Chose feed w.tables.fed_jobs (
          chosen stale u (
            on_tables (λ s. after (m, s) λ key. select (λ t. any (is_mark feed key) t.fed_jobs)) w))
  unfolding select
  checked-Chose feed u w (ok key) h e = elim (Bool-cases (is_down w.tables.outages)) [
    | inl d ↦ rw d (refl, (next-Trusted w h, (down-IsMarked feed u w _ h d, tt)))
    | inr d ↦ rw d (
      refl,
      (
        next-Trusted w h,
        (
          (λ m s i.
              set_again feed u.job key s e
                (ap (λ (l : List FedJob). any (is_mark feed key) l) i ∙ m)
              ∙ i),
          tt,
        ),
      ),
    )
  ]
  checked-Chose feed u w (err x) h e = (refl, (h, ((λ m s i. no_key feed u.job x s e ∙ i), tt)))
  checked-Chose feed u w fault h e = (refl, (h, tt))

  owner-Chose :
      (f : JpFeed) (job : Bytes) (attrs : List AttrVal) (o : Option Bytes) (w : World)
      → Trusted w
      → Chose f.id w.tables.fed_jobs (with_owner stale f job attrs o w)
  unfolding check_fed
  owner-Chose f job attrs none w h = (refl, (h, tt))
  owner-Chose f job attrs (some o) w h = checked-Chose f.id _ w (unique_key job) h refl

  if_chosen-Chose :
      (f : JpFeed) (job : Bytes) (attrs : List AttrVal) (o : Option Bytes) (m : Outcome Bool)
      (w : World)
      → Trusted w
      → Chose f.id w.tables.fed_jobs (if_chosen stale f job attrs o m w)
  if_chosen-Chose f job attrs o (ok true) w h = owner-Chose f job attrs o w h
  if_chosen-Chose f job attrs o (ok false) w h = (refl, (h, tt))
  if_chosen-Chose f job attrs o (err e) w h = (refl, (h, tt))
  if_chosen-Chose f job attrs o fault w h = (refl, (h, tt))

  Chose-after :
      (feed : Bytes) (l : List FedJob) (r : Outcome (List Chosen) × World)
      (k : Act World (List Chosen))
      → Chose feed l r
      → ((v : World) → Trusted v → Chose feed v.tables.fed_jobs (k v))
      → Chose feed l (after r λ c v. after (k v) λ cs. give (c ++ cs))
  Chose-after feed l (ok c, v) k (e, (t, a)) h =
      joined (k v) (subst (λ x. Chose feed x (k v)) e (h v t))
    where
      joined :
          (r : Outcome (List Chosen) × World)
          → Chose feed l r
          → Chose feed l (after r λ cs. give (c ++ cs))
      joined (ok cs, x) (e, (t, b)) = (e, (t, All-append (IsMarked feed l) c cs a b))
      joined (err y, x) (e, (t, b)) = (e, (t, tt))
      joined (fault, x) (e, (t, b)) = (e, (t, tt))
  Chose-after feed l (err x, v) k (e, (t, a)) h = (e, (t, tt))
  Chose-after feed l (fault, v) k (e, (t, a)) h = (e, (t, tt))

set_mark_kept :
    (feed : Bytes) (c : Chosen) (m : Bool) (w : World)
    → c.mark ≡ m
    → IsMarked feed w.tables.fed_jobs c
    → (set_mark feed c.update.job m w).1.tables.fed_jobs ≡ w.tables.fed_jobs
set_mark_kept feed c false w e h = refl
set_mark_kept feed c true w e h =
    ap (λ (v : World). v.tables.fed_jobs) (ignored_state (on_tables (set_fed feed c.update.job) w))
    ∙ h e w.tables refl

set_marks_kept :
    (feed : Bytes) (cs : List Chosen) (w : World)
    → All (IsMarked feed w.tables.fed_jobs) cs
    → (set_marks feed cs w).1.tables.fed_jobs ≡ w.tables.fed_jobs
unfolding set_marks
set_marks_kept feed [] w h = refl
set_marks_kept feed (c ∷ cs) w (hc, h) =
    go (set_mark feed c.update.job c.mark w) (set_mark_kept feed c c.mark w refl hc)
      (set_marks_kept feed cs)
  where
    go :
        (r : Outcome (Unit {0}) × World)
        → r.1.tables.fed_jobs ≡ w.tables.fed_jobs
        → ((v : World)
            → All (IsMarked feed v.tables.fed_jobs) cs
            → (set_marks feed cs v).1.tables.fed_jobs ≡ v.tables.fed_jobs)
        → (after r λ u. set_marks feed cs).1.tables.fed_jobs ≡ w.tables.fed_jobs
    go (ok u, v) e k = k v (subst (λ x. All (IsMarked feed x) cs) (sym e) h) ∙ e
    go (err y, v) e k = e
    go (fault, v) e k = e

module _ (b : Base64) (ps : List TypePlugin)
    (get_attrs : Bytes → List Bytes → Outcome (List AttrVal)) (owner_of_job : Bytes → Option Bytes)
    (stale : World → Update → Bool) (f : JpFeed) where
  choose_jobs-Chose :
      (jobs : List (Bytes × List AttrVal)) (w : World)
      → Trusted stale w
      → Chose stale f.id w.tables.fed_jobs (choose_jobs b ps get_attrs owner_of_job stale f jobs w)
  unfolding choose_jobs
  choose_jobs-Chose [] w h = (refl, (h, tt))
  choose_jobs-Chose ((job, attrs) ∷ jobs) w h =
      Chose-after stale f.id w.tables.fed_jobs _
        (choose_jobs b ps get_attrs owner_of_job stale f jobs)
        (if_chosen-Chose stale f job attrs (owner_of_job job) _ w h) (choose_jobs-Chose jobs)

  -- Whatever the index server refuses, if the database works, or the memory that holds the flags of
  -- the jobs holds zeros where the query for a mark fails: new attributes of several jobs at once
  -- leave the marks of all jobs for all feeds as they were, so a job that was not marked is not
  -- marked then.
  pub match_feed_multi_marks :
      (jobs : List (Bytes × List AttrVal)) (w : World)
      → (w.tables.outages ≡ []) ⊎ ((v : World) (u : Update) → stale v u ≡ false)
      → (match_feed_multi b ps get_attrs owner_of_job stale f jobs w).1.tables.fed_jobs
        ≡ w.tables.fed_jobs
  unfolding match_feed_multi
  match_feed_multi_marks jobs w h =
      go (choose_jobs b ps get_attrs owner_of_job stale f jobs w) (choose_jobs-Chose jobs w h)
    where
      go :
          (r : Outcome (List Chosen) × World)
          → Chose stale f.id w.tables.fed_jobs r
          → (after r λ cs v. set_marks f.id cs (feed_jobs cs v)).1.tables.fed_jobs
            ≡ w.tables.fed_jobs
      go (ok cs, v) (e, (t, a)) =
          set_marks_kept f.id cs (feed_jobs cs v) (subst (λ x. All (IsMarked f.id x) cs) (sym e) a)
          ∙ e
      go (err y, v) (e, (t, a)) = e
      go (fault, v) (e, (t, a)) = e
