-- ===== src/Examples/Batches.antt =====
-- Runs of feeds at concrete inputs.
use glite_jp.Base.{
  [], ◌∷◌, Bytes, codes, same, true, false, not, some, none, if◌then◌else◌, Outcome, ok, err,
  enoent, List, All, length, ◌≡◌, refl, pos, ◌%◌, ◌==◌,
}
use glite_jp.Types.{AttrVal, QueryRec, equal, orig_any, orig_system}
use glite_jp.Attr.Compare.{attrval_copy}
use glite_jp.Attr.Compare.{fb_cmp, by_size, memcmp_sized}
use glite_jp.Attr.Plugins.{attrval_cmp, get_plugin, get_namespace, find_plugin, fallback_plugin}
use glite_jp.Base.{strcmp}
use glite_jp.Feed.{check_qry_item}
use glite_jp.Feed.Batch.{
  job_owner, picked, all_meet, some_meets, StackedJob, Plan, Sending, owner_attr, to_mark,
  query_rows, run_plan,
}
use glite_jp.Feed.Batch.Entries.{entries}
use glite_jp.Feed.Batch.Marked.{idle_with, run_plan_marks}
use glite_jp.Feed.Store.{FeedTables}
use glite_jp.Feed.Store.Marks.{IsFed, set_fed_all}
use glite_jp.Feed.Batch.Sent.{IsSent}
use glite_jp.Feed.Batch.Run.{idle, any_done, run_plan_done}
use glite_jp.Feed.Batch.{
  plan_of, meta_attrs, other_attrs, queries_on, extra_attrs, is_metadata, is_among, jobid_name,
  run_feed_deferred,
}
use glite_jp.Feed.Batch.Sorting.{attrs_of, run_feed_deferred-IsSent}
use glite_jp.Base.{◌&&◌, ◌||◌}
use glite_jp.Examples.Attrs.{plain}
use glite_jp.Examples.Feeds.{queue_name, between}

abbrev pub owned : List AttrVal
owned =
    record {
      name = owner_attr;
      value = codes "/CN=a";
      binary = false;
      size = 0;
      origin = orig_system;
      origin_detail = none;
      timestamp = pos 0;
    }
    ∷ []

-- one job has a queue, the other no attributes
abbrev pub queues : Bytes → List Bytes → Outcome (List AttrVal)
queues job names = if same job (codes "one") then ok (queue_name ∷ []) else err enoent

abbrev two_rows : List (Bytes × List AttrVal)
two_rows = (codes "one", owned) ∷ (codes "two", owned) ∷ []

abbrev found : List QueryRec → List Bytes → Outcome (List (Bytes × List AttrVal))
found qs names = ok two_rows

abbrev on_queue : Plan
on_queue = record {
  continuous = true;
  meta_attr = [];
  wanted = codes "queue" ∷ [];
  other_attr = codes "queue" ∷ [];
  meta_qry = [];
  other_qry = between ∷ [];
}

abbrev one_job : List StackedJob
one_job =
    record { job = codes "one"; owner = codes "/CN=a"; attrs = attrval_copy queue_name ∷ [] } ∷ []

rows_found : query_rows plain [] queues found on_queue ≡ ok two_rows
rows_found = refl

abbrev one_entry : Outcome (List StackedJob)
one_entry = entries plain [] queues found on_queue two_rows

one_entry_lem : one_entry ≡ ok one_job
unfolding entries job_owner picked all_meet some_meets check_qry_item attrval_copy attrval_cmp
    get_plugin get_namespace find_plugin fallback_plugin fb_cmp by_size memcmp_sized same strcmp
one_entry_lem = refl

abbrev pub of_user : QueryRec
of_user = record {
  attr = owner_attr;
  op = equal;
  value = some (codes "/CN=a");
  value2 = none;
  binary = false;
  size = 0;
  size2 = 0;
  origin = orig_any;
}

abbrev long_queues : List QueryRec
long_queues = of_user ∷ between ∷ []

abbrev sorted : Plan
sorted = plan_of true (codes "queue" ∷ []) long_queues

sorted_rows : query_rows plain [] queues found sorted ≡ ok two_rows
unfolding meta_attrs same strcmp
sorted_rows = refl

abbrev sorted_entries : Outcome (List StackedJob)
sorted_entries = entries plain [] queues found sorted two_rows

sorted_entries_lem : sorted_entries ≡ ok one_job
unfolding meta_attrs other_attrs queries_on extra_attrs entries job_owner picked all_meet some_meets
    check_qry_item attrval_copy attrval_cmp get_plugin get_namespace find_plugin fallback_plugin
    fb_cmp by_size memcmp_sized same strcmp
sorted_entries_lem = refl

on_metadata : queries_on true long_queues ≡ of_user ∷ []
unfolding queries_on same strcmp
on_metadata = refl

run_feed_deferred-IsSent_example :
    (t : Sending) × (run_feed_deferred plain [] queues found true
        (codes "queue" ∷ [])
        long_queues
        idle
      ≡ (ok tt, t))
    × IsSent one_job t.sent
    × (t.fed ≡ to_mark true one_job)
run_feed_deferred-IsSent_example =
    run_feed_deferred-IsSent plain [] queues found true (codes "queue") [] long_queues [] of_user
      two_rows one_job on_metadata sorted_rows sorted_entries_lem

not_metadata : is_metadata (codes "queue") ≡ false
unfolding same strcmp
not_metadata = refl

is_asked :
    (is_among (codes "queue") [] && not (same (codes "queue") jobid_name)
      || is_among (codes "queue") (attrs_of long_queues))
    ≡ true
unfolding same strcmp
is_asked = refl

-- a job that has a key
abbrev keyed_job : Bytes
keyed_job = codes "https://lb/abcdefghij"

abbrev keyed_queues : Bytes → List Bytes → Outcome (List AttrVal)
keyed_queues job names = ok (queue_name ∷ [])

abbrev keyed_rows : List (Bytes × List AttrVal)
keyed_rows = (keyed_job, owned) ∷ []

abbrev found_keyed : List QueryRec → List Bytes → Outcome (List (Bytes × List AttrVal))
found_keyed qs names = ok keyed_rows

abbrev keyed_jobs : List StackedJob
keyed_jobs =
    record { job = keyed_job; owner = codes "/CN=a"; attrs = attrval_copy queue_name ∷ [] } ∷ []

abbrev keyed_entry : Outcome (List StackedJob)
keyed_entry = entries plain [] keyed_queues found_keyed on_queue keyed_rows

keyed_entry_lem : keyed_entry ≡ ok keyed_jobs
unfolding entries job_owner picked all_meet some_meets check_qry_item attrval_copy attrval_cmp
    get_plugin get_namespace find_plugin fallback_plugin fb_cmp by_size memcmp_sized same strcmp
keyed_entry_lem = refl

abbrev no_feeds : FeedTables
no_feeds = record { feeds = []; fed_jobs = []; outages = [] }

run_plan_done_example :
    any_done (run_plan plain [] queues found on_queue idle).1.sent ≡ not (length one_job % 200 == 0)
run_plan_done_example =
    run_plan_done plain [] queues found on_queue two_rows one_job rows_found one_entry_lem

run_plan_marks_example :
    (t : Sending) × (run_plan plain [] keyed_queues found_keyed on_queue (idle_with (true ∷ []))
      ≡ (ok tt, t))
    × All
        (λ (j : StackedJob). IsFed (codes "id1") (set_fed_all (codes "id1") t.fed no_feeds) j.job)
        keyed_jobs
run_plan_marks_example =
    run_plan_marks plain [] keyed_queues found_keyed on_queue (true ∷ []) keyed_rows keyed_jobs
      (codes "id1") no_feeds refl keyed_entry_lem refl refl
