-- ===== src/Feed/Batch/Run.antt =====
-- A whole run of a feed.
use glite_jp.Base.{
  ℕ, ◌%◌, ◌<◌, [], ◌∷◌, ◌++◌, Bytes, Bool, true, false, not, ◌||◌, ◌==◌, Outcome, ok, parts_of,
  List, All, length, length-append, append-nil, append_assoc, ◌≡◌, refl, sym, ap, ◌∙◌, subst, arith,
}
use glite_jp.Base.Act.{after, from}
use glite_jp.Types.{AttrVal, QueryRec}
use glite_jp.Attr.Codec.{Base64}
use glite_jp.Attr.Plugins.{TypePlugin}
use glite_jp.Feed.Batch.{
  StackedJob, Message, Sending, Plan, to_mark, drain, drain_feed, each_row, finish, query_rows,
  run_plan,
}
use glite_jp.Feed.Batch.Entries.{listed, entry, entries, callback_lem}
use glite_jp.Feed.Batch.Sent.{
  jobs_of, IsFull, closing, IsSent, Progress, step, drained, sent_on, to_mark-append,
}

-- the beginning of a run
abbrev pub idle : Sending
idle = record { stacked = []; sent = []; fed = []; refusals = [] }

abbrev pub any_done : List Message → Bool
any_done [] = false
any_done (m ∷ ms) = m.done || any_done ms

any_done-closing :
    (ms : List Message) (r : List StackedJob)
    → All IsFull ms
    → any_done (ms ++ closing r) ≡ any_done (closing r)
any_done-closing [] r h = refl
any_done-closing (m ∷ ms) r ((d, n), h) =
    ap (λ (b : Bool). b || any_done (ms ++ closing r)) d ∙ any_done-closing ms r h

jobs_of_full : (ms : List Message) → All IsFull ms → length (jobs_of ms) % 200 ≡ 0
jobs_of_full [] h = refl
jobs_of_full (m ∷ ms) ((d, n), h) =
    omega (arith, length-append m.jobs (jobs_of ms), jobs_of_full ms h)

closing_done :
    (r : List StackedJob) (n : ℕ) → n % 200 ≡ length r → any_done (closing r) ≡ not (n % 200 == 0)
closing_done [] n h = ground arith
closing_done (j ∷ r) n h = ground arith

module _ (b : Base64) (ps : List TypePlugin)
    (get_attrs : Bytes → List Bytes → Outcome (List AttrVal))
    (select : List QueryRec → List Bytes → Outcome (List (Bytes × List AttrVal))) (p : Plan) where
  rows_lem :
      (rows : List (Bytes × List AttrVal)) (es fs : List StackedJob) (s : Sending)
      → entries b ps get_attrs select p rows ≡ ok fs
      → Progress p.continuous es s
      → (t : Sending) × (each_row b ps get_attrs select p rows s ≡ (ok tt, t))
        × Progress p.continuous (es ++ fs) t
  unfolding each_row entries
  rows_lem [] es fs s h w = (
    s,
    refl,
    subst (λ (l : List StackedJob). Progress p.continuous l s)
        (sym (append-nil es) ∙ ap (λ (l : List StackedJob). es ++ l) (let q : [] ≡ fs = (cc) in q))
        w,
  )
  rows_lem ((job, meta) ∷ rows) es fs s h w =
      let (e, hk, he) = parts_of (entry b ps get_attrs select p job meta) h in
      let (l, hf, hl) = parts_of (entries b ps get_attrs select p rows) hk in
      let (u, hu, wu) = step b ps get_attrs select p es e s w in
      let (t, ht, wt) = rows_lem rows (es ++ listed e) l u hl wu in
      (
        t,
        ap
              (λ (x : Outcome (Unit {0}) × Sending).
                after x λ a. each_row b ps get_attrs select p rows)
              (callback_lem b ps get_attrs select p job meta e s w.short he ∙ hu)
            ∙ ht,
        subst (λ (k : List StackedJob). Progress p.continuous k t)
            (append_assoc es (listed e) l
              ∙ ap (λ (k : List StackedJob). es ++ k) (let q : listed e ++ l ≡ fs = (cc) in q))
            wt,
      )

  -- The last batch, for the jobs that are left.
  last_batch :
      (es l : List StackedJob) (s : Sending)
      → l ≡ s.stacked
      → Progress p.continuous es s
      → (t : Sending) × (drain p.continuous true l s ≡ (ok tt, t))
        × IsSent es t.sent
        × (t.fed ≡ to_mark p.continuous es)
  last_batch es [] s e w = (
    s,
    refl,
    record {
      batches = s.sent;
      rest = [];
      parts = sym (append-nil s.sent);
      full = w.full;
      short = omega arith;
      whole = ap (λ (k : List StackedJob). jobs_of s.sent ++ k) e ∙ w.whole;
    },
    w.fed
        ∙ ap (λ (k : List StackedJob). to_mark p.continuous k)
            (sym (append-nil (jobs_of s.sent))
              ∙ ap (λ (k : List StackedJob). jobs_of s.sent ++ k) e
              ∙ w.whole),
  )
  last_batch es (j ∷ js) s e w =
      let all : jobs_of s.sent ++ (j ∷ js) ≡ es =
        ap (λ (k : List StackedJob). jobs_of s.sent ++ k) e ∙ w.whole in
      (
        sent_on p.continuous true (j ∷ js) s,
        drained p.continuous true j js s w.calm,
        record {
          batches = s.sent;
          rest = j ∷ js;
          parts = refl;
          full = w.full;
          short = subst (λ (k : List StackedJob). length k < 200) (sym e) w.short;
          whole = all;
        },
        ap (λ (k : List Bytes). k ++ to_mark p.continuous (j ∷ js)) w.fed
            ∙ sym (to_mark-append p.continuous (jobs_of s.sent) (j ∷ js))
            ∙ ap (λ (k : List StackedJob). to_mark p.continuous k) all,
      )

  -- If the query gives rows, the attributes of each can be read, and the index server refuses no
  -- call, then a run succeeds. The messages carry the jobs that `entries` takes from the rows, all of
  -- them, in their order, by full batches and a last one that says that the feed is done, if any
  -- jobs are left for it; and set_fed is called for all of them if the feed is continuous.
  pub run_plan-IsSent :
      (rows : List (Bytes × List AttrVal)) (es : List StackedJob)
      → query_rows b ps get_attrs select p ≡ ok rows
      → entries b ps get_attrs select p rows ≡ ok es
      → (t : Sending) × (run_plan b ps get_attrs select p idle ≡ (ok tt, t))
        × IsSent es t.sent
        × (t.fed ≡ to_mark p.continuous es)
  unfolding run_plan drain_feed
  run_plan-IsSent rows es h k =
      let (u, hu, w) = rows_lem rows [] es idle k (record {
        calm = refl;
        short = omega arith;
        full = tt;
        whole = refl;
        fed = empty_marked p.continuous;
      }) in
      let (t, ht, wt, ft) = last_batch es u.stacked u refl w in
      (
        t,
        ap
              (λ (m : Outcome (List (Bytes × List AttrVal))).
                finish b ps get_attrs select p.continuous
                  (after (from m idle) λ r. each_row b ps get_attrs select p r))
              h
            ∙ ap (λ (x : Outcome (Unit {0}) × Sending). finish b ps get_attrs select p.continuous x)
                hu
            ∙ ht,
        wt,
        ft,
      )
    where
      empty_marked : (c : Bool) → [] ≡ to_mark c []
      empty_marked true = refl
      empty_marked false = refl

-- Where jobs were sent as `IsSent` says, the index server is told that the feed is done exactly where
-- their number is no multiple of the size of a batch.
pub IsSent-done :
    (es : List StackedJob) (ms : List Message)
    → IsSent es ms
    → any_done ms ≡ not (length es % 200 == 0)
IsSent-done es ms h =
    ap any_done h.parts
    ∙ any_done-closing h.batches h.rest h.full
    ∙ closing_done h.rest (length es) (
        omega (
          arith,
          h.short,
          jobs_of_full h.batches h.full,
          length-append (jobs_of h.batches) h.rest,
          ap length h.whole,
        ))

-- Under the conditions of `run_plan-IsSent` the run tells the index server that the feed is done
-- exactly where the number of the jobs is no multiple of the size of a batch: not for no job at all,
-- nor for 200.
pub run_plan_done :
    (b : Base64) (ps : List TypePlugin) (get_attrs : Bytes → List Bytes → Outcome (List AttrVal))
    (select : List QueryRec → List Bytes → Outcome (List (Bytes × List AttrVal))) (p : Plan)
    (rows : List (Bytes × List AttrVal)) (es : List StackedJob)
    → query_rows b ps get_attrs select p ≡ ok rows
    → entries b ps get_attrs select p rows ≡ ok es
    → any_done (run_plan b ps get_attrs select p idle).1.sent ≡ not (length es % 200 == 0)
run_plan_done b ps get_attrs select p rows es h k =
    let (t, e, w, f) = run_plan-IsSent b ps get_attrs select p rows es h k in
    ap (λ (x : Outcome (Unit {0}) × Sending). any_done x.1.sent) e ∙ IsSent-done es t.sent w
