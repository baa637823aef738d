-- ===== src/Feed/Updates/Many.antt =====
-- New attributes of several jobs at once in org.glite.jp.primary/src/feed.c: match_feed_multi, with
-- glite_jpps_multi_feed of org.glite.jp.primary/src/is_client.c.
pub mod Kept
use glite_jp.Base.{
  [], ◌∷◌, ◌++◌, Bytes, Bool, Bool-cases, true, false, Option, some, none, Outcome, ok, err, fault,
  List, All, All-append, ◌≡◌, inl, inr, refl, sym, ap, ◌∙◌, map, subst,
}
use glite_jp.Base.Act.{Act, after, give}
use glite_jp.Types.{AttrVal}
use glite_jp.Attr.Codec.{Base64}
use glite_jp.Attr.Plugins.{TypePlugin}
use glite_jp.Uploads.Tables.{is_down, any}
use glite_jp.Feed.Batch.{later}
use glite_jp.Feed.Matching.{is_feed_matching}
use glite_jp.Feed.Store.{
  FedJob, FeedTables, is_mark, unique_key, select, exec_sql, with_mark, set_fed, check_fed,
}
use glite_jp.Feed.Columns.{JpFeed}
use glite_jp.Feed.Updates.{Update, World, on_tables, ignored}

-- A job that is sent, with the flag that says whether it is marked.
pub record Chosen : Type 0 where
  pub update : Update
  pub mark : Bool

-- Where the query for the mark fails, the flag keeps what stood in the memory, which `stale` tells.
abbrev pub chosen :
    (World → Update → Bool) → Update → Outcome Bool × World → Outcome (List Chosen) × World
chosen stale u (ok m, w) = (ok (record { update = u; mark = m } ∷ []), w)
chosen stale u (err e, w) = (ok (record { update = u; mark = stale w u } ∷ []), w)
chosen stale u (fault, w) = (fault, w)

-- A job whose owner is not known makes the server copy a null pointer.
abbrev pub with_owner :
    (World → Update → Bool) → JpFeed → Bytes → List AttrVal → Option Bytes → Act World (List Chosen)
with_owner stale f job attrs none w = (fault, w)
with_owner stale f job attrs (some o) w =
    chosen stale
      (record { feed = f.id; destination = f.destination; job = job; owner = o; attrs = attrs })
      (on_tables (check_fed f.id job) w)

abbrev pub if_chosen :
    (World → Update → Bool)
    → JpFeed
    → Bytes
    → List AttrVal
    → Option Bytes
    → Outcome Bool
    → Act World (List Chosen)
if_chosen stale f job attrs o (ok true) = with_owner stale f job attrs o
if_chosen stale f job attrs o (ok false) = give []
if_chosen stale f job attrs o (err e) = give []
if_chosen stale f job attrs o fault = λ w. (fault, w)

abbrev pub delivered_jobs : List Bool → List Chosen → List Update
delivered_jobs (true ∷ l) cs = []
delivered_jobs (false ∷ l) cs = map (λ (c : Chosen). c.update) cs
delivered_jobs [] cs = map (λ (c : Chosen). c.update) cs

-- glite_jpps_multi_feed, which returns 0 also where the call fails
abbrev pub feed_jobs : List Chosen → World → World
feed_jobs cs w = record w {
  updates = w.updates ++ delivered_jobs w.refusals cs;
  refusals = later w.refusals;
}

abbrev pub set_mark : Bytes → Bytes → Bool → Act World (Unit {0})
set_mark feed job false w = (ok tt, w)
set_mark feed job true w = ignored (on_tables (set_fed feed job) w)

unfoldable pub set_marks : Bytes → List Chosen → Act World (Unit {0})
set_marks feed [] = give tt
set_marks feed (c ∷ cs) = λ w. after (set_mark feed c.update.job c.mark w) λ u. set_marks feed cs

module _ (b : Base64) (ps : List TypePlugin)
    (get_attrs : Bytes → List Bytes → Outcome (List AttrVal)) (owner_of_job : Bytes → Option Bytes)
    (stale : World → Update → Bool) where
  unfoldable pub choose_jobs : JpFeed → List (Bytes × List AttrVal) → Act World (List Chosen)
  choose_jobs f [] = give []
  choose_jobs f ((job, attrs) ∷ jobs) = λ w.
      after
        (if_chosen stale f job attrs (owner_of_job job)
          (is_feed_matching b ps get_attrs (some f.qry) job attrs) w)
        λ c v. after (choose_jobs f jobs v) λ cs. give (c ++ cs)

  -- The pointer that is tested in place of the flag is not null: no job is sent whole.
  unfoldable pub match_feed_multi : JpFeed → List (Bytes × List AttrVal) → Act World (Unit {0})
  match_feed_multi f jobs w =
      after (choose_jobs f jobs w) λ cs v. set_marks f.id cs (feed_jobs cs v)
