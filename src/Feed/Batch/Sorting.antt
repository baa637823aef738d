-- ===== src/Feed/Batch/Sorting.antt =====
-- The attributes that a feed asks for each job, and a run from its attributes and query.
use glite_jp.Base.{
  [], ◌∷◌, ◌++◌, Bytes, same, Bool, true, false, not, ◌&&◌, ◌||◌, Outcome, ok, List, map,
  Bool-cases, inl, inr, same_iff, ◌≡◌, refl, ap, ◌∙◌, arith,
}
use glite_jp.Base.Act.{Act}
use glite_jp.Types.{AttrVal, QueryRec}
use glite_jp.Attr.Codec.{Base64}
use glite_jp.Attr.Plugins.{TypePlugin}
use glite_jp.Feed.Batch.{
  StackedJob, Sending, jobid_name, is_metadata, to_mark, query_rows, other_attrs, queries_on,
  is_among, extra_attrs, plan_of, with_lists, with_meta, run_plan, run_feed_deferred,
}
use glite_jp.Feed.Batch.Entries.{entries}
use glite_jp.Feed.Batch.Sent.{IsSent}
use glite_jp.Feed.Batch.Run.{idle, run_plan-IsSent}

abbrev pub attrs_of : List QueryRec → List Bytes
attrs_of qs = map (λ (q : QueryRec). q.attr) qs

is_among-append :
    (x : Bytes) (l m : List Bytes) → is_among x (l ++ m) ≡ is_among x l || is_among x m
is_among-append x [] m = refl
is_among-append x (y ∷ l) m = rw (is_among-append x l m) ground arith

agree : (P : Bytes → Bool) (a x : Bytes) → same a x ≡ true → P a ≡ P x
agree P a x e = ap P ((same_iff a x).0 e)

found_later :
    (a x : Bytes) (l : List Bytes)
    → is_among x (a ∷ l) ≡ true
    → same a x ≡ false
    → is_among x l ≡ true
found_later a x l h e = ground arith

kept_other :
    (x : Bytes) (attrs : List Bytes)
    → is_metadata x ≡ false
    → same x jobid_name ≡ false
    → is_among x attrs ≡ true
    → is_among x (other_attrs attrs) ≡ true
unfolding other_attrs
kept_other x [] h j k = k
kept_other x (a ∷ l) h j k = elim (Bool-cases (same a x)) [
  | inl e ↦
      rw (agree is_metadata a x e, h, agree (λ (y : Bytes). same y jobid_name) a x e, j, e) refl
  | inr e ↦ ground (arith, kept_other x l h j (found_later a x l k e))
]

kept_query :
    (x : Bytes) (qs : List QueryRec)
    → is_metadata x ≡ false
    → is_among x (attrs_of qs) ≡ true
    → is_among x (attrs_of (queries_on false qs)) ≡ true
unfolding queries_on
kept_query x [] h k = k
kept_query x (q ∷ qs) h k = elim (Bool-cases (same q.attr x)) [
  | inl e ↦ rw (agree is_metadata q.attr x e, h, e) refl
  | inr e ↦ ground (arith, kept_query x qs h (found_later q.attr x (attrs_of qs) k e))
]

all_asked :
    (x : Bytes) (w : List Bytes) (qs : List QueryRec)
    → is_among x (attrs_of qs) ≡ true
    → (is_among x w || is_among x (extra_attrs w qs)) ≡ true
unfolding extra_attrs
all_asked x w [] k = absurd (ground arith)
all_asked x w (q ∷ qs) k = elim (Bool-cases (same q.attr x)) [
  | inl e ↦ ground (arith, agree (λ (y : Bytes). is_among y w) q.attr x e)
  | inr e ↦ ground (arith, all_asked x w qs (found_later q.attr x (attrs_of qs) k e))
]

only_sent : (m j n : Bool) → (m && not j || n) ≡ true → n ≡ false → (m ≡ true) × (j ≡ false)
only_sent true false n k e = (refl, refl)
only_sent true true n k e = absurd (ground arith)
only_sent false j n k e = absurd (ground arith)

-- An attribute that is not metadata, and that the feed is to send, the identifier of the job apart,
-- or that its query names, is among those that a run asks for each job.
pub plan_of-is_among :
    (continuous : Bool) (attrs : List Bytes) (qry : List QueryRec) (x : Bytes)
    → is_metadata x ≡ false
    → (is_among x attrs && not (same x jobid_name) || is_among x (attrs_of qry)) ≡ true
    → is_among x (plan_of continuous attrs qry).other_attr ≡ true
plan_of-is_among continuous attrs qry x h k =
    is_among-append x (other_attrs attrs) (extra_attrs (other_attrs attrs) (queries_on false qry))
    ∙ elim (Bool-cases (is_among x (attrs_of qry))) [
      | inl e ↦ all_asked x (other_attrs attrs) (queries_on false qry) (kept_query x qry h e)
      | inr e ↦
          let (m, j) =
            only_sent (is_among x attrs) (same x jobid_name) (is_among x (attrs_of qry)) k e in
          rw (kept_other x attrs h j m) refl
    ]

listed :
    (a : Bytes) (attrs : List Bytes) (qry qs : List QueryRec) (q : QueryRec)
    (m : Act Sending (Unit {0})) (s : Sending)
    → queries_on true qry ≡ q ∷ qs
    → with_lists (a ∷ attrs) qry m s ≡ m s
unfolding queries_on
listed a attrs [] qs q m s h = absurd (ground arith)
listed a attrs (x ∷ qry) qs q m s h = refl

-- If a feed has attributes and its query has an item on metadata, the search gives rows, the
-- attributes of each can be read, and the index server refuses no call, then the run succeeds. The
-- messages carry the jobs that `entries` takes from the rows, all of them, in their order, by full
-- batches and a last one that says that the feed is done, if any jobs are left for it; and set_fed is
-- called for all of them, in their order, if the feed is continuous, and for none else.
pub run_feed_deferred-IsSent :
    (b : Base64) (ps : List TypePlugin) (get_attrs : Bytes → List Bytes → Outcome (List AttrVal))
    (select : List QueryRec → List Bytes → Outcome (List (Bytes × List AttrVal)))
    (continuous : Bool) (a : Bytes) (attrs : List Bytes) (qry qs : List QueryRec) (q : QueryRec)
    (rows : List (Bytes × List AttrVal)) (es : List StackedJob)
    → queries_on true qry ≡ q ∷ qs
    → query_rows b ps get_attrs select (plan_of continuous (a ∷ attrs) qry) ≡ ok rows
    → entries b ps get_attrs select (plan_of continuous (a ∷ attrs) qry) rows ≡ ok es
    → (t : Sending) × (run_feed_deferred b ps get_attrs select continuous (a ∷ attrs) qry idle
        ≡ (ok tt, t))
      × IsSent es t.sent
      × (t.fed ≡ to_mark continuous es)
unfolding run_feed_deferred
run_feed_deferred-IsSent b ps get_attrs select continuous a attrs qry qs q rows es m h k =
    let (t, e, w, f) =
      run_plan-IsSent b ps get_attrs select (plan_of continuous (a ∷ attrs) qry) rows es h k in
    (
      t,
      listed a attrs qry qs q _ idle m
          ∙ ap
              (λ (l : List QueryRec).
                with_meta l (run_plan b ps get_attrs select (plan_of continuous (a ∷ attrs) qry))
                  idle)
              m
          ∙ e,
      w,
      f,
    )
