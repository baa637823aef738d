-- ===== src/Feed/Batch.antt =====
-- org.glite.jp.primary/src/feed.c: a feed that runs once over the jobs that are there. The jobs that
-- match are stacked, and are sent to the index server by batches.
pub mod Entries
pub mod Sent
pub mod Run
pub mod Sorting
pub mod Marked
use glite_jp.Base.{
  ℕ, [], ◌∷◌, ◌++◌, Bytes, codes, same, Bool, true, false, not, ◌&&◌, ◌||◌, Option, some, none, ltb,
  ◌==◌, if◌then◌else◌, Outcome, ok, err, fault, ◌>>=◌, enoent, eio, einval, List, length, map,
}
use glite_jp.Base.Act
use glite_jp.Base.Act.{Act, after, give, refuse, from}
use glite_jp.Types.{AttrVal, QueryRec}
use glite_jp.Attr.Compare.{attrval_copy}
use glite_jp.Attr.Codec.{Base64}
use glite_jp.Attr.Plugins.{TypePlugin}
use glite_jp.Feed.{check_qry_item}

abbrev pub owner_attr : Bytes
owner_attr = codes "http://egee.cesnet.cz/en/Schema/JP/System:owner"

abbrev pub jobid_name : Bytes
jobid_name = codes "http://egee.cesnet.cz/en/Schema/JP/System:jobId"

abbrev pub regtime_attr : Bytes
regtime_attr = codes "http://egee.cesnet.cz/en/Schema/JP/System:regtime"

-- glite_jppsbe_is_metadata
abbrev pub is_metadata : Bytes → Bool
is_metadata a = same a owner_attr || same a regtime_attr

abbrev pub batch_feed_size : ℕ
batch_feed_size = 200

pub record StackedJob : Type 0 where
  pub job : Bytes
  pub owner : Bytes
  pub attrs : List AttrVal

-- one call of glite_jpps_multi_feed that was accepted
pub record Message : Type 0 where
  pub done : Bool
  pub jobs : List StackedJob

-- The feed, with its attributes and query sorted. `wanted` are the attributes that are not metadata
-- and are sent; `other_attr` are those and the attributes of the query.
pub record Plan : Type 0 where
  pub continuous : Bool
  pub meta_attr : List Bytes
  pub wanted : List Bytes
  pub other_attr : List Bytes
  pub meta_qry : List QueryRec
  pub other_qry : List QueryRec

-- What a run has stacked and sent, and in `fed` the jobs for which it has called glite_jppsbe_set_fed,
-- in order: what the call returns is not looked at. `refusals` tells of the calls of the index server
-- to come whether they fail; behind its end they do not.
pub record Sending : Type 0 where
  pub stacked : List StackedJob
  pub sent : List Message
  pub fed : List Bytes
  pub refusals : List Bool

abbrev pub delivered : List Bool → Message → List Message
delivered [] m = m ∷ []
delivered (false ∷ l) m = m ∷ []
delivered (true ∷ l) m = []

abbrev pub later : List Bool → List Bool
later [] = []
later (b ∷ l) = l

-- the jobs for which set_fed is called
abbrev pub to_mark : Bool → List StackedJob → List Bytes
to_mark false js = []
to_mark true js = map (λ (j : StackedJob). j.job) js

-- glite_jpps_multi_feed: the code that check_fault returns is not looked at, so a call that fails
-- returns 0 too, and is not tried again.
abbrev pub multi_feed : Message → Act Sending (Unit {0})
multi_feed m s =
    (ok tt, record s { sent = s.sent ++ delivered s.refusals m; refusals = later s.refusals })

abbrev pub dropped : List Bytes → Outcome (Unit {0}) × Sending → Outcome (Unit {0}) × Sending
dropped names (ok u, s) = (ok tt, record s { stacked = []; fed = s.fed ++ names })
dropped names (err e, s) = (err e, record s { stacked = [] })
dropped names (fault, s) = (fault, s)

abbrev pub drain : Bool → Bool → List StackedJob → Act Sending (Unit {0})
drain continuous done [] = give tt
drain continuous done (j ∷ js) = λ s.
    dropped (to_mark continuous (j ∷ js)) (multi_feed (record { done = done; jobs = j ∷ js }) s)

-- With no job there is no call.
unfoldable pub drain_feed : Bool → Bool → Act Sending (Unit {0})
drain_feed continuous done s = drain continuous done s.stacked s

-- a copy for each of the names that the attribute has
abbrev pub copies : List Bytes → AttrVal → List AttrVal
copies [] a = []
copies (n ∷ ns) a = if same a.name n then attrval_copy a ∷ copies ns a else copies ns a

unfoldable pub picked : List Bytes → List AttrVal → List AttrVal
picked names [] = []
picked names (a ∷ l) = copies names a ++ picked names l

-- Metadata without an owner are read behind their end.
unfoldable pub job_owner : List AttrVal → Outcome Bytes
job_owner [] = fault
job_owner (a ∷ l) = if same a.name owner_attr then ok a.value else job_owner l

-- the answer of glite_jpps_get_attrs: no attributes are no error
abbrev pub collected : Outcome (List AttrVal) → Outcome (Option (List AttrVal))
collected (ok l) = ok (some l)
collected (err e) = if e == enoent then ok none else err eio
collected fault = fault

abbrev pub values_of : Option (List AttrVal) → List AttrVal
values_of none = []
values_of (some l) = l

-- `get_attrs` is glite_jpps_get_attrs for one job, and `select` the search of glite_jppsbe_query: the
-- jobs with the metadata that are asked for, read whole, or the error, ENOENT if there are none.
module _ (b : Base64) (ps : List TypePlugin)
    (get_attrs : Bytes → List Bytes → Outcome (List AttrVal))
    (select : List QueryRec → List Bytes → Outcome (List (Bytes × List AttrVal))) where
  unfoldable pub some_meets : QueryRec → List AttrVal → Outcome Bool
  some_meets q [] = ok false
  some_meets q (a ∷ l) =
      check_qry_item b ps q a >>= λ m. elim m [ true ↦ ok true | false ↦ some_meets q l ]

  unfoldable pub all_meet : List QueryRec → List AttrVal → Outcome Bool
  all_meet [] l = ok true
  all_meet (q ∷ qs) l = some_meets q l >>= λ m. elim m [ true ↦ all_meet qs l | false ↦ ok false ]

  abbrev pub passes : List QueryRec → Option (List AttrVal) → Outcome Bool
  passes [] o = ok true
  passes (q ∷ qs) none = ok false
  passes (q ∷ qs) (some l) = all_meet (q ∷ qs) l

  -- A job without any attribute to send is not stacked.
  abbrev pub stack_job : Bytes → List AttrVal → List AttrVal → Act Sending (Unit {0})
  stack_job job meta [] = give tt
  stack_job job meta (a ∷ l) = λ s. after (from (job_owner meta) s) λ o t. (
    ok tt,
    record t { stacked = t.stacked ++ record { job = job; owner = o; attrs = a ∷ l } ∷ [] },
  )

  abbrev pub drain_if_full : Bool → Act Sending (Unit {0})
  drain_if_full continuous s =
      if ltb (length s.stacked) batch_feed_size then (ok tt, s) else drain_feed continuous false s

  abbrev pub feed_job : Plan → Bytes → List AttrVal → Option (List AttrVal) → Act Sending (Unit {0})
  feed_job p job meta other s =
      after (stack_job job meta (picked p.meta_attr meta ++ picked p.wanted (values_of other)) s)
        λ u. drain_if_full p.continuous

  unfoldable pub feed_query_callback : Plan → Bytes → List AttrVal → Act Sending (Unit {0})
  feed_query_callback p job meta s =
      after (from (collected (get_attrs job p.other_attr)) s) λ other t.
        after (from (passes p.other_qry other) t)
          λ m u. if m then feed_job p job meta other u else (ok tt, u)

  -- the loop of glite_jppsbe_query over the rows
  unfoldable pub each_row : Plan → List (Bytes × List AttrVal) → Act Sending (Unit {0})
  each_row p [] = give tt
  each_row p ((job, meta) ∷ rows) =
      λ s. after (feed_query_callback p job meta s) λ u. each_row p rows

  -- What follows the query: an end without jobs is none.
  abbrev pub finish : Bool → Outcome (Unit {0}) × Sending → Outcome (Unit {0}) × Sending
  finish continuous (ok u, s) = drain_feed continuous true s
  finish continuous (err e, s) =
      if e == enoent then (ok tt, s) else (err e, record s { stacked = [] })
  finish continuous (fault, s) = (fault, s)

  -- The query takes two columns at most.
  abbrev pub query_rows : Plan → Outcome (List (Bytes × List AttrVal))
  query_rows p =
      if ltb 2 (length (owner_attr ∷ p.meta_attr))
      then fault
      else select p.meta_qry (owner_attr ∷ p.meta_attr)

  unfoldable pub run_plan : Plan → Act Sending (Unit {0})
  run_plan p s = finish p.continuous (after (from (query_rows p) s) λ rows. each_row p rows)

-- Sorting the attributes: the owner and the identifier are sent anyway.
unfoldable pub meta_attrs : List Bytes → List Bytes
meta_attrs [] = []
meta_attrs (a ∷ l) =
    if is_metadata a && not (same a owner_attr) then a ∷ meta_attrs l else meta_attrs l

unfoldable pub other_attrs : List Bytes → List Bytes
other_attrs [] = []
other_attrs (a ∷ l) =
    if is_metadata a || same a jobid_name then other_attrs l else a ∷ other_attrs l

unfoldable pub queries_on : Bool → List QueryRec → List QueryRec
queries_on meta [] = []
queries_on true (q ∷ qs) = if is_metadata q.attr then q ∷ queries_on true qs else queries_on true qs
queries_on false (q ∷ qs) =
    if is_metadata q.attr then queries_on false qs else q ∷ queries_on false qs

abbrev pub is_among : Bytes → List Bytes → Bool
is_among a [] = false
is_among a (x ∷ xs) = same x a || is_among a xs

-- the attributes of the query that are not sent
unfoldable pub extra_attrs : List Bytes → List QueryRec → List Bytes
extra_attrs wanted [] = []
extra_attrs wanted (q ∷ qs) =
    if is_among q.attr wanted then extra_attrs wanted qs else q.attr ∷ extra_attrs wanted qs

abbrev pub plan_of : Bool → List Bytes → List QueryRec → Plan
plan_of continuous attrs qry = record {
  continuous = continuous;
  meta_attr = meta_attrs attrs;
  wanted = other_attrs attrs;
  other_attr = other_attrs attrs ++ extra_attrs (other_attrs attrs) (queries_on false qry);
  meta_qry = queries_on true qry;
  other_qry = queries_on false qry;
}

abbrev pub with_meta : List QueryRec → Act Sending (Unit {0}) → Act Sending (Unit {0})
with_meta [] m = refuse einval
with_meta (q ∷ qs) m = m

-- A feed without attributes or without a query holds a null pointer, which is read.
abbrev pub with_lists : List Bytes → List QueryRec → Act Sending (Unit {0}) → Act Sending (Unit {0})
with_lists [] qry m s = (fault, s)
with_lists (a ∷ attrs) [] m s = (fault, s)
with_lists (a ∷ attrs) (q ∷ qry) m s = m s

unfoldable pub run_feed_deferred :
    (b : Base64) (ps : List TypePlugin) (get_attrs : Bytes → List Bytes → Outcome (List AttrVal))
    (select : List QueryRec → List Bytes → Outcome (List (Bytes × List AttrVal)))
    → Bool
    → List Bytes
    → List QueryRec
    → Act Sending (Unit {0})
run_feed_deferred b ps get_attrs select continuous attrs qry = with_lists attrs qry (
    with_meta (queries_on true qry) (run_plan b ps get_attrs select (plan_of continuous attrs qry)))
