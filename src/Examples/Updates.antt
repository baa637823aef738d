-- ===== src/Examples/Updates.antt =====
-- New attributes of a job for a feed, at concrete inputs.
use glite_jp.Base.{
  inr, ℕ, [], ◌∷◌, ◌++◌, Bytes, codes, same, strcmp, Bool, true, false, Option, some, none, Outcome,
  ok, List, All, map, ◌≡◌, refl, arith,
}
use glite_jp.Types.{AttrVal}
use glite_jp.Uploads.Tables.{any}
use glite_jp.Feed.Batch.{owner_attr}
use glite_jp.Feed.Matching.{is_feed_matching, first_named, tell_all}
use glite_jp.Feed.Store.{unique_key, is_mark, set_fed, check_fed, select, exec_sql}
use glite_jp.Feed.Columns.{JpFeed}
use glite_jp.Feed.Updates.{Update, World, full_feed, match_feed, single_feed}
use glite_jp.Feed.Updates.Once.{calm, mark_of, update_of, IsMatching, match_each, match_each_lem}
use glite_jp.Feed.Updates.Many.{match_feed_multi, choose_jobs, set_marks}
use glite_jp.Feed.Updates.Many.Kept.{match_feed_multi_marks}
use glite_jp.Feed.Updates.Safe.{match_feed_marks}
use glite_jp.Examples.Attrs.{plain}
use glite_jp.Examples.Feeds.{between}
use glite_jp.Examples.Batches.{owned}
use glite_jp.Examples.Matches.{only_queue, queue_named, queue_met}

abbrev queue_feed : JpFeed
queue_feed = record {
  id = codes "id1";
  destination = codes "https://is";
  expires = 0;
  attrs = codes "queue" ∷ [];
  qry = between ∷ [];
}

abbrev all_attrs : List AttrVal
all_attrs = owned ++ only_queue

abbrev whole : Bytes → List Bytes → Outcome (List AttrVal)
whole job names = ok all_attrs

abbrev alice : Bytes → Option Bytes
alice job = some (codes "/CN=a")

abbrev the_job : Bytes
the_job = codes "https://lb/abcdefghij"

the_key : unique_key the_job ≡ ok (codes "abcdefghij")
unfolding unique_key
the_key = refl

it_matches : IsMatching plain [] whole alice queue_feed the_job (codes "abcdefghij") [] only_queue
unfolding is_feed_matching tell_all
it_matches = rw (queue_named, queue_met) refl

owner_first :
    first_named owner_attr all_attrs
    ≡ some (record {
      name = owner_attr;
      value = codes "/CN=a";
      binary = false;
      size = 0;
      origin = 1;
      origin_detail = none;
      timestamp = glite_jp.Base.pos 0;
    })
unfolding same strcmp
owner_first = refl

whole_read : full_feed plain [] whole alice queue_feed the_job ≡ ok all_attrs
unfolding full_feed
whole_read = refl

match_each_lem_example :
    match_each plain [] whole alice queue_feed the_job
      (codes "abcdefghij")
      []
      (only_queue ∷ only_queue ∷ [])
      (calm [] [] [])
    ≡ (
      ok tt,
      calm [] (mark_of (codes "id1") (codes "abcdefghij") ∷ []) (
          update_of queue_feed the_job (codes "/CN=a") all_attrs
          ∷ update_of queue_feed the_job (codes "/CN=a") only_queue
          ∷ []),
    )
match_each_lem_example =
    match_each_lem plain [] whole alice queue_feed the_job (codes "abcdefghij") [] only_queue
      (only_queue ∷ []) all_attrs _ (codes "/CN=a") [] [] (it_matches, (it_matches, tt)) the_key
      refl whole_read owner_first refl

-- The index server refuses once.
abbrev unsteady : World
unsteady = record {
  tables = record { feeds = []; fed_jobs = []; outages = [] };
  updates = [];
  refusals = true ∷ [];
}

abbrev marked_then : Bool
marked_then =
    any (is_mark (codes "id1") (codes "abcdefghij"))
      (match_feed plain [] whole alice queue_feed the_job only_queue unsteady).1.tables.fed_jobs

is_marked : marked_then ≡ true
unfolding match_feed full_feed single_feed check_fed set_fed unique_key select exec_sql
    is_feed_matching tell_all glite_jp.Feed.check_qry_item glite_jp.Attr.Plugins.attrval_cmp
    glite_jp.Attr.Plugins.get_plugin glite_jp.Attr.Plugins.get_namespace
    glite_jp.Attr.Plugins.find_plugin glite_jp.Attr.Plugins.fallback_plugin
    glite_jp.Attr.Compare.fb_cmp glite_jp.Attr.Compare.by_size glite_jp.Attr.Compare.memcmp_sized
    same strcmp
is_marked = refl

match_feed_marks_example :
    (a : List AttrVal) × (o : Bytes) × (full_feed plain [] whole alice queue_feed the_job ≡ ok a)
    × ((match_feed plain [] whole alice queue_feed the_job only_queue unsteady).1.updates
        ≡ update_of queue_feed the_job o a ∷ [])
match_feed_marks_example =
    match_feed_marks plain [] whole alice queue_feed the_job (codes "abcdefghij") unsteady
      only_queue refl is_marked

abbrev two_jobs : List (Bytes × List AttrVal)
two_jobs = (the_job, only_queue) ∷ (the_job, []) ∷ []

abbrev calm_state : World
calm_state = calm [] [] []

-- what the memory of the flags holds
abbrev zeros : World → Update → Bool
zeros w u = false

abbrev down_state : World
down_state = record calm_state { tables = record (calm_state.tables) { outages = true ∷ [] } }

match_feed_multi_marks_example :
    (match_feed_multi plain [] whole alice zeros queue_feed two_jobs down_state).1.tables.fed_jobs
    ≡ []
match_feed_multi_marks_example =
    match_feed_multi_marks plain [] whole alice zeros queue_feed two_jobs down_state
      (inr λ v u. refl)

-- The new attributes of a job that is not marked are sent without the others.
sent_alone :
    (match_feed_multi plain [] whole alice zeros queue_feed
      ((the_job, only_queue) ∷ [])
      calm_state).1.updates
    ≡ update_of queue_feed the_job (codes "/CN=a") only_queue ∷ []
unfolding match_feed_multi choose_jobs set_marks full_feed check_fed unique_key select
    is_feed_matching tell_all glite_jp.Feed.check_qry_item glite_jp.Attr.Plugins.attrval_cmp
    glite_jp.Attr.Plugins.get_plugin glite_jp.Attr.Plugins.get_namespace
    glite_jp.Attr.Plugins.find_plugin glite_jp.Attr.Plugins.fallback_plugin
    glite_jp.Attr.Compare.fb_cmp glite_jp.Attr.Compare.by_size glite_jp.Attr.Compare.memcmp_sized
    same strcmp
sent_alone = refl
