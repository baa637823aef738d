-- ===== src/Feed/Batch/Entries.antt =====
-- What one row of the query adds to the jobs that a feed sends.
use glite_jp.Base.{
  ◌<◌, [], ◌∷◌, ◌++◌, Bytes, Bool, true, false, Option, some, none, if◌then◌else◌, Outcome, ok, err,
  fault, ◌>>=◌, List, length, ◌≡◌, refl, sym, ap, lt→ltb,
}
use glite_jp.Base.Act.{after, from}
use glite_jp.Types.{AttrVal, QueryRec}
use glite_jp.Attr.Codec.{Base64}
use glite_jp.Attr.Plugins.{TypePlugin}
use glite_jp.Feed.Batch.{
  StackedJob, Sending, Plan, picked, job_owner, collected, values_of, passes, stack_job,
  drain_if_full, feed_job, feed_query_callback,
}

-- the jobs with one more
abbrev pub pushed : Option StackedJob → Sending → Sending
pushed none s = s
pushed (some j) s = record s { stacked = s.stacked ++ j ∷ [] }

abbrev pub listed : Option StackedJob → List StackedJob
listed none = []
listed (some j) = j ∷ []

module _ (b : Base64) (ps : List TypePlugin)
    (get_attrs : Bytes → List Bytes → Outcome (List AttrVal))
    (select : List QueryRec → List Bytes → Outcome (List (Bytes × List AttrVal))) (p : Plan) where
  -- A job with attributes to send, and its owner.
  abbrev pub made_of : Bytes → List AttrVal → List AttrVal → Outcome (Option StackedJob)
  made_of job meta [] = ok none
  made_of job meta (a ∷ l) =
      job_owner meta >>= λ o. ok (some (record { job = job; owner = o; attrs = a ∷ l }))

  abbrev pub matched :
      Bytes → List AttrVal → Option (List AttrVal) → Bool → Outcome (Option StackedJob)
  matched job meta other true =
      made_of job meta (picked p.meta_attr meta ++ picked p.wanted (values_of other))
  matched job meta other false = ok none

  -- What the row gives: the job with the attributes that the feed wants, if it meets the query.
  abbrev pub entry : Bytes → List AttrVal → Outcome (Option StackedJob)
  entry job meta = collected (get_attrs job p.other_attr) >>= λ other.
      passes b ps get_attrs select p.other_qry other >>= λ m. matched job meta other m

  abbrev pub with_entry : Option StackedJob → List StackedJob → List StackedJob
  with_entry e l = listed e ++ l

  -- all rows, in their order
  unfoldable pub entries : List (Bytes × List AttrVal) → Outcome (List StackedJob)
  entries [] = ok []
  entries ((job, meta) ∷ rows) = entry job meta >>= λ e. entries rows >>= λ l. ok (with_entry e l)

  unfilled :
      (s : Sending)
      → length s.stacked < 200
      → drain_if_full b ps get_attrs select p.continuous s ≡ (ok tt, s)
  unfilled s h = rw (lt→ltb (length s.stacked) 200 h) refl

  stacked_lem :
      (job : Bytes) (meta out : List AttrVal) (e : Option StackedJob) (s : Sending)
      → made_of job meta out ≡ ok e
      → stack_job b ps get_attrs select job meta out s ≡ (ok tt, pushed e s)
  stacked_lem job meta [] none s h = refl
  stacked_lem job meta [] (some j) s h = cc
  stacked_lem job meta (a ∷ l) e s h = named (job_owner meta) h
    where
      named :
          (o : Outcome Bytes)
          → (o >>= λ w. ok (some (record { job = job; owner = w; attrs = a ∷ l }))) ≡ ok e
          → ◌≡◌ {A = Outcome (Unit {0}) × Sending}
              (after
                (o, s)
                (λ w t. (
                  ok tt,
                  record t {
                    stacked = t.stacked ++ record { job = job; owner = w; attrs = a ∷ l } ∷ [];
                  },
                )))
              (ok tt, pushed e s)
      named (ok w) k =
          ap (λ (f : Option StackedJob). (ok tt, pushed f s))
            (let q : some (record { job = job; owner = w; attrs = a ∷ l }) ≡ e = (cc) in q)
      named (err n) k = cc
      named fault k = cc

  matched_lem :
      (job : Bytes) (meta : List AttrVal) (other : Option (List AttrVal)) (m : Bool)
      (e : Option StackedJob) (s : Sending)
      → length s.stacked < 200
      → matched job meta other m ≡ ok e
      → (if m then feed_job b ps get_attrs select p job meta other s else (ok tt, s))
        ≡ drain_if_full b ps get_attrs select p.continuous (pushed e s)
  matched_lem job meta other true e s h k =
      ap
        (λ (x : Outcome (Unit {0}) × Sending).
          after x λ u. drain_if_full b ps get_attrs select p.continuous)
        (stacked_lem job meta (picked p.meta_attr meta ++ picked p.wanted (values_of other)) e s k)
  matched_lem job meta other false none s h k = sym (unfilled s h)
  matched_lem job meta other false (some j) s h k = cc

  pub callback_lem :
      (job : Bytes) (meta : List AttrVal) (e : Option StackedJob) (s : Sending)
      → length s.stacked < 200
      → entry job meta ≡ ok e
      → feed_query_callback b ps get_attrs select p job meta s
        ≡ drain_if_full b ps get_attrs select p.continuous (pushed e s)
  unfolding feed_query_callback
  callback_lem job meta e s h k = got (collected (get_attrs job p.other_attr)) k
    where
      tested :
          (other : Option (List AttrVal)) (y : Outcome Bool)
          → (y >>= λ m. matched job meta other m) ≡ ok e
          → after
              (y, s)
              (λ m u. if m then feed_job b ps get_attrs select p job meta other u else (ok tt, u))
            ≡ drain_if_full b ps get_attrs select p.continuous (pushed e s)
      tested other (ok m) q = matched_lem job meta other m e s h q
      tested other (err n) q = cc
      tested other fault q = cc

      got :
          (x : Outcome (Option (List AttrVal)))
          → (x >>= λ other.
              passes b ps get_attrs select p.other_qry other >>= λ m. matched job meta other m)
            ≡ ok e
          → after
              (x, s)
              (λ other t.
                after (from (passes b ps get_attrs select p.other_qry other) t) λ m u.
                  if m then feed_job b ps get_attrs select p job meta other u else (ok tt, u))
            ≡ drain_if_full b ps get_attrs select p.continuous (pushed e s)
      got (ok other) q = tested other (passes b ps get_attrs select p.other_qry other) q
      got (err n) q = cc
      got fault q = cc
