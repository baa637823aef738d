-- ===== src/Feed/Batch/Sent.antt =====
-- All jobs that match are sent, in their order, by full batches and a last one.
use glite_jp.Base.{
  ◌<◌, [], ◌∷◌, ◌++◌, Bytes, Bool, true, false, Option, some, none, ltb, Outcome, ok, List, All,
  All-append, length, length-append, append-nil, append_assoc, ◌≡◌, refl, sym, ap, ◌∙◌, subst,
  arith, lt→ltb, Bool-cases, inl, inr,
}
use glite_jp.Types.{AttrVal, QueryRec}
use glite_jp.Attr.Codec.{Base64}
use glite_jp.Attr.Plugins.{TypePlugin}
use glite_jp.Feed.Batch.{
  StackedJob, Message, Sending, Plan, to_mark, drain, drain_feed, drain_if_full, delivered, later,
}
use glite_jp.Feed.Batch.Entries.{pushed, listed}

abbrev pub jobs_of : List Message → List StackedJob
jobs_of [] = []
jobs_of (m ∷ ms) = m.jobs ++ jobs_of ms

-- a batch that is not the last
abbrev pub IsFull : Message → Type 0
IsFull m = (m.done ≡ false) × (length m.jobs ≡ 200)

abbrev pub closing : List StackedJob → List Message
closing [] = []
closing (j ∷ js) = record { done = true; jobs = j ∷ js } ∷ []

-- The messages carry these jobs: full batches, and a last one, which says that the feed is done, if
-- any jobs are left for it.
pub record IsSent (es : List StackedJob) (ms : List Message) : Type 0 where
  pub batches : List Message
  pub rest : List StackedJob
  pub parts : ms ≡ batches ++ closing rest
  pub full : All IsFull batches
  pub short : length rest < 200
  pub whole : jobs_of batches ++ rest ≡ es

-- The jobs so far are sent by full batches or stacked, and those that were sent are marked.
pub record Progress (c : Bool) (es : List StackedJob) (s : Sending) : Type 0 where
  pub calm : s.refusals ≡ []
  pub short : length s.stacked < 200
  pub full : All IsFull s.sent
  pub whole : jobs_of s.sent ++ s.stacked ≡ es
  pub fed : s.fed ≡ to_mark c (jobs_of s.sent)

pub jobs_of-append :
    (ms : List Message) (m : Message) → jobs_of (ms ++ m ∷ []) ≡ jobs_of ms ++ m.jobs
jobs_of-append [] m = append-nil m.jobs
jobs_of-append (n ∷ ms) m =
    ap (λ (l : List StackedJob). n.jobs ++ l) (jobs_of-append ms m)
    ∙ sym (append_assoc n.jobs (jobs_of ms) m.jobs)

pub to_mark-append :
    (c : Bool) (l m : List StackedJob) → to_mark c (l ++ m) ≡ to_mark c l ++ to_mark c m
to_mark-append false l m = refl
to_mark-append true [] m = refl
to_mark-append true (j ∷ l) m = ap (λ (k : List Bytes). j.job ∷ k) (to_mark-append true l m)

-- the state behind a call that is not refused
abbrev pub sent_on : Bool → Bool → List StackedJob → Sending → Sending
sent_on c done js s = record {
  stacked = [];
  sent = s.sent ++ record { done = done; jobs = js } ∷ [];
  fed = s.fed ++ to_mark c js;
  refusals = [];
}

pub drained :
    (c done : Bool) (j : StackedJob) (js : List StackedJob) (s : Sending)
    → s.refusals ≡ []
    → drain c done (j ∷ js) s ≡ (ok tt, sent_on c done (j ∷ js) s)
drained c done j js s e =
    ap
      (λ (l : List Bool). (
        ok tt,
        record {
          stacked = [];
          sent = s.sent ++ delivered l (record { done = done; jobs = j ∷ js });
          fed = s.fed ++ to_mark c (j ∷ js);
          refusals = later l;
        },
      ))
      e

module _ (b : Base64) (ps : List TypePlugin)
    (get_attrs : Bytes → List Bytes → Outcome (List AttrVal))
    (select : List QueryRec → List Bytes → Outcome (List (Bytes × List AttrVal))) (p : Plan) where
  filled :
      (es l : List StackedJob) (s : Sending)
      → l ≡ s.stacked
      → length l ≡ 200
      → s.refusals ≡ []
      → All IsFull s.sent
      → jobs_of s.sent ++ l ≡ es
      → s.fed ≡ to_mark p.continuous (jobs_of s.sent)
      → (t : Sending) × (drain p.continuous false l s ≡ (ok tt, t)) × Progress p.continuous es t
  filled es [] s i h c f w d = absurd (omega arith)
  filled es (j ∷ js) s i h c f w d =
      let m : Message = record { done = false; jobs = j ∷ js } in
      (
        sent_on p.continuous false (j ∷ js) s,
        drained p.continuous false j js s c,
        record {
          calm = refl;
          short = omega arith;
          full = All-append IsFull s.sent (m ∷ []) f ((refl, h), tt);
          whole = append-nil _ ∙ jobs_of-append s.sent m ∙ w;
          fed =
              ap (λ (x : List Bytes). x ++ to_mark p.continuous (j ∷ js)) d
              ∙ sym (to_mark-append p.continuous (jobs_of s.sent) (j ∷ js))
              ∙ ap (λ (x : List StackedJob). to_mark p.continuous x)
                  (sym (jobs_of-append s.sent m));
        },
      )

  pub step :
      (es : List StackedJob) (e : Option StackedJob) (s : Sending)
      → Progress p.continuous es s
      → (t : Sending) × (drain_if_full b ps get_attrs select p.continuous (pushed e s) ≡ (ok tt, t))
        × Progress p.continuous (es ++ listed e) t
  unfolding drain_feed
  step es none s h = (
    s,
    rw (lt→ltb (length s.stacked) 200 h.short) refl,
    subst (λ (l : List StackedJob). Progress p.continuous l s) (sym (append-nil es)) h,
  )
  step es (some j) s h = elim (Bool-cases (ltb (length (s.stacked ++ j ∷ [])) 200)) [
    | inl q ↦ (
      pushed (some j) s,
      rw q refl,
      record {
        calm = h.calm;
        short = ground (arith, q);
        full = h.full;
        whole =
            sym (append_assoc (jobs_of s.sent) s.stacked (j ∷ []))
            ∙ ap (λ (l : List StackedJob). l ++ j ∷ []) h.whole;
        fed = h.fed;
      },
    )
    | inr q ↦
        let r =
          filled (es ++ j ∷ []) (s.stacked ++ j ∷ []) (pushed (some j) s) refl
            (ground (arith, q, h.short, length-append s.stacked (j ∷ []))) h.calm h.full
            (sym (append_assoc (jobs_of s.sent) s.stacked (j ∷ []))
              ∙ ap (λ (l : List StackedJob). l ++ j ∷ []) h.whole)
            h.fed in
        (r.0, rw q r.1, r.2)
  ]
