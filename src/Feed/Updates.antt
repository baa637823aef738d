-- ===== src/Feed/Updates.antt =====
-- How org.glite.jp.primary/src/feed.c passes new attributes of a job on to the index servers, with
-- glite_jpps_single_feed of org.glite.jp.primary/src/is_client.c.
pub mod Once
pub mod Safe
pub mod Many
use glite_jp.Base.{
  ℕ, zero, suc, [], ◌∷◌, ◌++◌, Bytes, same, Bool, true, false, not, ◌||◌, Option, some, none,
  if◌then◌else◌, Outcome, ok, err, fault, eio, List,
}
use glite_jp.Base.Act.{Act, after, give}
use glite_jp.Types.{AttrVal, QueryRec}
use glite_jp.Attr.Codec.{Base64}
use glite_jp.Attr.Plugins.{TypePlugin}
use glite_jp.Feed.Batch.{owner_attr, is_among, later}
use glite_jp.Feed.Matching.{is_feed_matching, first_named}
use glite_jp.Feed.Store.{FeedTables, set_fed, check_fed}
use glite_jp.Feed.Columns.{JpFeed}

-- a call of UpdateJobs for one job that was accepted
pub record Update : Type 0 where
  pub feed : Bytes
  pub destination : Bytes
  pub job : Bytes
  pub owner : Bytes
  pub attrs : List AttrVal

-- `refusals` tells of the calls of UpdateJobs to come whether they fail; behind its end they do not.
pub record World : Type 0 where
  pub tables : FeedTables
  pub updates : List Update
  pub refusals : List Bool

abbrev pub on_tables {ℓ} : {A : Type ℓ} → Act FeedTables A → Act World A
on_tables m w = ((m w.tables).0, record w { tables = (m w.tables).1 })

abbrev pub max_retry : ℕ
max_retry = 10

abbrev pub answered_by : List Bool → Update → Act World (Unit {0})
answered_by [] u w = (ok tt, record w { updates = w.updates ++ u ∷ [] })
answered_by (false ∷ l) u w = (ok tt, record w { updates = w.updates ++ u ∷ []; refusals = l })
answered_by (true ∷ l) u w = (err eio, record w { refusals = l })

-- glite_jpps_single_feed_wrapped
abbrev pub single_feed_wrapped : Update → Act World (Unit {0})
single_feed_wrapped u w = answered_by w.refusals u w

abbrev pub retried : Outcome (Unit {0}) × World → Act World (Unit {0}) → Outcome (Unit {0}) × World
retried (ok x, w) go = (ok tt, w)
retried (err e, w) go = go w
retried (fault, w) go = (fault, w)

-- the loop of glite_jpps_single_feed
pub feed_attempts : ℕ → Update → Act World (Unit {0})
feed_attempts zero u w = (err eio, w)
feed_attempts (suc n) u w = retried (single_feed_wrapped u w) (feed_attempts n u)

-- A missing owner is refused by an assert.
unfoldable pub single_feed : JpFeed → Bytes → Option Bytes → List AttrVal → Act World (Unit {0})
unfolding feed_attempts
single_feed f job none attrs w = (fault, w)
single_feed f job (some o) attrs w =
    feed_attempts max_retry
      (record { feed = f.id; destination = f.destination; job = job; owner = o; attrs = attrs }) w

-- an error is not looked at
abbrev pub ignored {ℓ} : {A : Type ℓ} → Outcome A × World → Outcome (Unit {0}) × World
ignored (ok a, w) = (ok tt, w)
ignored (err e, w) = (ok tt, w)
ignored (fault, w) = (fault, w)

abbrev pub if_sent : Outcome (Unit {0}) × World → Act World (Unit {0}) → Outcome (Unit {0}) × World
if_sent (ok x, w) go = ignored (go w)
if_sent (err e, w) go = (ok tt, w)
if_sent (fault, w) go = (fault, w)

abbrev pub value_or_null : Option AttrVal → Option Bytes
value_or_null none = none
value_or_null (some a) = some a.value

-- the attributes that full_feed asks for
abbrev pub full_names : List Bytes → List Bytes
full_names attrs = if is_among owner_attr attrs then attrs else owner_attr ∷ attrs

-- `get_attrs` is glite_jpps_get_attrs, and `owner_of_job` the owner that glite_jppsbe_get_job_metadata
-- gives, or a null pointer.
module _ (b : Base64) (ps : List TypePlugin)
    (get_attrs : Bytes → List Bytes → Outcome (List AttrVal))
    (owner_of_job : Bytes → Option Bytes) where
  unfoldable pub full_feed : JpFeed → Bytes → Outcome (List AttrVal)
  full_feed f job = get_attrs job (full_names f.attrs)

  -- Where the attributes cannot be retrieved, a pointer that was not set is read.
  abbrev pub send_full : JpFeed → Bytes → Outcome (List AttrVal) → Act World (Unit {0})
  send_full f job (ok a) w =
      if_sent (single_feed f job (value_or_null (first_named owner_attr a)) a w)
        (on_tables (set_fed f.id job))
  send_full f job (err e) w = (fault, w)
  send_full f job fault w = (fault, w)

  abbrev pub send_new : JpFeed → Bytes → List AttrVal → Act World (Unit {0})
  send_new f job attrs w = ignored (single_feed f job (owner_of_job job) attrs w)

  -- Where the query for the mark fails, a variable that was not set is read.
  abbrev pub send_as :
      JpFeed → Bytes → List AttrVal → Outcome Bool × World → Outcome (Unit {0}) × World
  send_as f job attrs (ok false, w) = send_full f job (full_feed f job) w
  send_as f job attrs (ok true, w) = send_new f job attrs w
  send_as f job attrs (err e, w) = (fault, w)
  send_as f job attrs (fault, w) = (fault, w)

  abbrev pub if_matching : JpFeed → Bytes → List AttrVal → Outcome Bool → Act World (Unit {0})
  if_matching f job attrs (ok true) w = send_as f job attrs (on_tables (check_fed f.id job) w)
  if_matching f job attrs (ok false) w = (ok tt, w)
  if_matching f job attrs (err e) w = (ok tt, w)
  if_matching f job attrs fault w = (fault, w)

  unfoldable pub match_feed : JpFeed → Bytes → List AttrVal → Act World (Unit {0})
  match_feed f job attrs =
      if_matching f job attrs (is_feed_matching b ps get_attrs (some f.qry) job attrs)

  -- some attribute of the feed is among the new ones
  abbrev pub some_new : List Bytes → List AttrVal → Bool
  some_new [] attrs = false
  some_new (n ∷ ns) attrs = elim (first_named n attrs) [ some a ↦ true | none ↦ some_new ns attrs ]

  abbrev pub match_if : Bool → JpFeed → Bytes → List AttrVal → Act World (Unit {0})
  match_if true f job attrs = match_feed f job attrs
  match_if false f job attrs = give tt

  unfoldable pub match_attr_deferred : List JpFeed → Bytes → List AttrVal → Act World (Unit {0})
  match_attr_deferred [] job attrs = give tt
  match_attr_deferred (f ∷ fs) job attrs = λ w.
      after (match_if (some_new f.attrs attrs) f job attrs w) λ u. match_attr_deferred fs job attrs
