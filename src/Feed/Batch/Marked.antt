-- ===== src/Feed/Batch/Marked.antt =====
-- What a run marks as fed where calls of the index server may fail.
use glite_jp.Base.{
  ◌<◌, [], ◌∷◌, ◌++◌, Bytes, Bool, Bool-cases, true, false, inl, inr, ltb, Option, some, none,
  Outcome, ok, parts_of, List, All, length, append-nil, append_assoc, ◌≡◌, refl, sym, ap, ◌∙◌,
  subst, arith, lt→ltb,
}
use glite_jp.Base.Act.{after, from}
use glite_jp.Types.{AttrVal, QueryRec}
use glite_jp.Attr.Codec.{Base64}
use glite_jp.Attr.Plugins.{TypePlugin}
use glite_jp.Feed.Batch.{
  StackedJob, Sending, Plan, to_mark, drain, drain_feed, drain_if_full, each_row, finish,
  query_rows, run_plan,
}
use glite_jp.Feed.Store.{FeedTables}
use glite_jp.Feed.Store.Marks.{IsFed, set_fed_all, set_fed_all-IsFed}
use glite_jp.Feed.Batch.Entries.{pushed, listed, entry, entries, callback_lem}
use glite_jp.Feed.Batch.Sent.{to_mark-append}

-- a run that begins, where these calls of the index server will fail
abbrev pub idle_with : List Bool → Sending
idle_with l = record { stacked = []; sent = []; fed = []; refusals = l }

-- The jobs so far are marked or stacked.
record Marking (c : Bool) (es : List StackedJob) (s : Sending) : Type 0 where
  pub past : List StackedJob
  pub short : length s.stacked < 200
  pub fed : s.fed ≡ to_mark c past
  pub whole : past ++ s.stacked ≡ es

all_marked :
    (c done : Bool) (es past l : List StackedJob) (s : Sending)
    → l ≡ s.stacked
    → s.fed ≡ to_mark c past
    → past ++ l ≡ es
    → (t : Sending) × (drain c done l s ≡ (ok tt, t)) × (t.stacked ≡ []) × (t.fed ≡ to_mark c es)
all_marked c done es past [] s i f w =
    (s, refl, sym i, f ∙ ap (λ (k : List StackedJob). to_mark c k) (sym (append-nil past) ∙ w))
all_marked c done es past (j ∷ js) s i f w = (
  _,
  refl,
  refl,
  ap (λ (k : List Bytes). k ++ to_mark c (j ∷ js)) f
      ∙ sym (to_mark-append c past (j ∷ js))
      ∙ ap (λ (k : List StackedJob). to_mark c k) w,
)

module _ (b : Base64) (ps : List TypePlugin)
    (get_attrs : Bytes → List Bytes → Outcome (List AttrVal))
    (select : List QueryRec → List Bytes → Outcome (List (Bytes × List AttrVal))) (p : Plan) where
  next_marked :
      (es : List StackedJob) (e : Option StackedJob) (s : Sending)
      → Marking p.continuous es s
      → (t : Sending) × (drain_if_full b ps get_attrs select p.continuous (pushed e s) ≡ (ok tt, t))
        × Marking p.continuous (es ++ listed e) t
  unfolding drain_feed
  next_marked es none s h = (
    s,
    rw (lt→ltb (length s.stacked) 200 h.short) refl,
    subst (λ (l : List StackedJob). Marking p.continuous l s) (sym (append-nil es)) h,
  )
  next_marked es (some j) s h =
      let w =
        sym (append_assoc h.past s.stacked (j ∷ []))
        ∙ ap (λ (l : List StackedJob). l ++ j ∷ []) h.whole in
      elim (Bool-cases (ltb (length (s.stacked ++ j ∷ [])) 200)) [
        | inl q ↦ (
          pushed (some j) s,
          rw q refl,
          record { past = h.past; short = ground (arith, q); fed = h.fed; whole = w },
        )
        | inr q ↦
            let (t, e, k, f) =
              all_marked p.continuous false (es ++ j ∷ []) h.past (s.stacked ++ j ∷ [])
                (pushed (some j) s) refl h.fed w in
            (
              t,
              rw q e,
              record {
                past = es ++ j ∷ [];
                short = subst (λ (l : List StackedJob). length l < 200) (sym k) (omega arith);
                fed = f;
                whole =
                    ap (λ (l : List StackedJob). (es ++ j ∷ []) ++ l) k ∙ append-nil (es ++ j ∷ []);
              },
            )
      ]

  rows_marked :
      (rows : List (Bytes × List AttrVal)) (es fs : List StackedJob) (s : Sending)
      → entries b ps get_attrs select p rows ≡ ok fs
      → Marking p.continuous es s
      → (t : Sending) × (each_row b ps get_attrs select p rows s ≡ (ok tt, t))
        × Marking p.continuous (es ++ fs) t
  unfolding each_row entries
  rows_marked [] es fs s h w = (
    s,
    refl,
    subst (λ (l : List StackedJob). Marking p.continuous l s)
        (sym (append-nil es) ∙ ap (λ (l : List StackedJob). es ++ l) (let q : [] ≡ fs = (cc) in q))
        w,
  )
  rows_marked ((job, meta) ∷ rows) es fs s h w =
      let (e, hk, he) = parts_of (entry b ps get_attrs select p job meta) h in
      let (l, hf, hl) = parts_of (entries b ps get_attrs select p rows) hk in
      let (u, hu, wu) = next_marked es e s w in
      let (t, ht, wt) = rows_marked rows (es ++ listed e) l u hl wu in
      (
        t,
        ap
              (λ (x : Outcome (Unit {0}) × Sending).
                after x λ a. each_row b ps get_attrs select p rows)
              (callback_lem b ps get_attrs select p job meta e s w.short he ∙ hu)
            ∙ ht,
        subst (λ (k : List StackedJob). Marking p.continuous k t)
            (append_assoc es (listed e) l
              ∙ ap (λ (k : List StackedJob). es ++ k) (let q : listed e ++ l ≡ fs = (cc) in q))
            wt,
      )

  -- If the query gives rows and the attributes of each can be read, then whichever calls of the index
  -- server fail, the run succeeds, and calls set_fed for all jobs to send if the feed is continuous,
  -- and for none else.
  run_plan_calls :
      (refusals : List Bool) (rows : List (Bytes × List AttrVal)) (es : List StackedJob)
      → query_rows b ps get_attrs select p ≡ ok rows
      → entries b ps get_attrs select p rows ≡ ok es
      → (t : Sending) × (run_plan b ps get_attrs select p (idle_with refusals) ≡ (ok tt, t))
        × (t.fed ≡ to_mark p.continuous es)
  unfolding run_plan drain_feed
  run_plan_calls refusals rows es h k =
      let (u, hu, w) = rows_marked rows [] es (idle_with refusals) k (record {
        past = [];
        short = omega arith;
        fed = empty_marked p.continuous;
        whole = refl;
      }) in
      let (t, ht, e, f) = all_marked p.continuous true es w.past u.stacked u refl w.fed w.whole in
      (
        t,
        ap
              (λ (m : Outcome (List (Bytes × List AttrVal))).
                finish b ps get_attrs select p.continuous
                  (after (from m (idle_with refusals)) λ r. each_row b ps get_attrs select p r))
              h
            ∙ ap (λ (x : Outcome (Unit {0}) × Sending). finish b ps get_attrs select p.continuous x)
                hu
            ∙ ht,
        f,
      )
    where
      empty_marked : (c : Bool) → [] ≡ to_mark c []
      empty_marked true = refl
      empty_marked false = refl

  -- If the query gives rows and the attributes of each can be read, then whichever calls of the index
  -- server fail, the run succeeds; and if the feed is continuous, the calls of set_fed that the run
  -- makes leave, on a database that works, each job to send that has a key marked for the feed,
  -- whether it was delivered or not.
  pub run_plan_marks :
      (refusals : List Bool) (rows : List (Bytes × List AttrVal)) (es : List StackedJob)
      (id : Bytes) (u : FeedTables)
      → query_rows b ps get_attrs select p ≡ ok rows
      → entries b ps get_attrs select p rows ≡ ok es
      → p.continuous ≡ true
      → u.outages ≡ []
      → (t : Sending) × (run_plan b ps get_attrs select p (idle_with refusals) ≡ (ok tt, t))
        × All (λ (j : StackedJob). IsFed id (set_fed_all id t.fed u) j.job) es
  run_plan_marks refusals rows es id u h k c o =
      let (t, e, f) = run_plan_calls refusals rows es h k in
      (
        t,
        e,
        subst (λ (l : List Bytes). All (λ (j : StackedJob). IsFed id (set_fed_all id l u) j.job) es)
            (sym (f ∙ ap (λ (x : Bool). to_mark x es) c))
            (set_fed_all-IsFed id (λ (j : StackedJob). j.job) es u o),
      )
