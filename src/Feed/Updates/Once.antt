-- ===== src/Feed/Updates/Once.antt =====
-- A job is sent whole once, and then its new attributes only.
use glite_jp.Base.{
  [], ◌∷◌, ◌++◌, Bytes, same_refl, true, false, Option, some, Outcome, ok, List, All, map,
  append_assoc, append-nil, ◌≡◌, refl, sym, ap, ◌∙◌, arith,
}
use glite_jp.Base.Act.{Act, after, give}
use glite_jp.Types.{AttrVal}
use glite_jp.Attr.Codec.{Base64}
use glite_jp.Attr.Plugins.{TypePlugin}
use glite_jp.Uploads.Tables.{any}
use glite_jp.Feed.Batch.{owner_attr}
use glite_jp.Feed.Matching.{is_feed_matching, first_named}
use glite_jp.Feed.Store.{
  SavedFeed, FedJob, unique_key, is_mark, set_fed, check_fed, select, exec_sql,
}
use glite_jp.Feed.Columns.{JpFeed}
use glite_jp.Feed.Updates.{Update, World, full_feed, match_feed, single_feed}

-- a database that works and index servers that refuse no call
abbrev pub calm : List SavedFeed → List FedJob → List Update → World
calm fs ms us = record {
  tables = record { feeds = fs; fed_jobs = ms; outages = [] };
  updates = us;
  refusals = [];
}

abbrev pub mark_of : Bytes → Bytes → FedJob
mark_of id key = record { feedid = id; jobid = key }

abbrev pub update_of : JpFeed → Bytes → Bytes → List AttrVal → Update
update_of f job o attrs = record {
  feed = f.id;
  destination = f.destination;
  job = job;
  owner = o;
  attrs = attrs;
}

any-append :
    (id key : Bytes) (ms : List FedJob) → any (is_mark id key) (ms ++ mark_of id key ∷ []) ≡ true
any-append id key [] = rw (same_refl key, same_refl id) refl
any-append id key (m ∷ ms) = rw (any-append id key ms) ground arith

checked :
    (id job key : Bytes) (fs : List SavedFeed) (ms : List FedJob)
    → unique_key job ≡ ok key
    → check_fed id job (record { feeds = fs; fed_jobs = ms; outages = [] })
      ≡ (ok (any (is_mark id key) ms), record { feeds = fs; fed_jobs = ms; outages = [] })
unfolding check_fed select
checked id job key fs ms h = rw h refl

marked_now :
    (id job key : Bytes) (fs : List SavedFeed) (ms : List FedJob)
    → unique_key job ≡ ok key
    → any (is_mark id key) ms ≡ false
    → set_fed id job (record { feeds = fs; fed_jobs = ms; outages = [] })
      ≡ (ok tt, record { feeds = fs; fed_jobs = ms ++ mark_of id key ∷ []; outages = [] })
unfolding set_fed exec_sql
marked_now id job key fs ms h n = rw (h, n) refl

module _ (b : Base64) (ps : List TypePlugin)
    (get_attrs : Bytes → List Bytes → Outcome (List AttrVal)) (owner_of_job : Bytes → Option Bytes)
    (f : JpFeed) (job key : Bytes) (fs : List SavedFeed) where
  abbrev pub IsMatching : List AttrVal → Type 0
  IsMatching attrs = is_feed_matching b ps get_attrs (some f.qry) job attrs ≡ ok true

  sent_whole :
      (attrs a : List AttrVal) (o : AttrVal) (ms : List FedJob) (us : List Update)
      → IsMatching attrs
      → unique_key job ≡ ok key
      → any (is_mark f.id key) ms ≡ false
      → full_feed b ps get_attrs owner_of_job f job ≡ ok a
      → first_named owner_attr a ≡ some o
      → match_feed b ps get_attrs owner_of_job f job attrs (calm fs ms us)
        ≡ (ok tt, calm fs (ms ++ mark_of f.id key ∷ []) (us ++ update_of f job o.value a ∷ []))
  unfolding match_feed single_feed
  sent_whole attrs a o ms us h k n e w =
      rw (h, checked f.id job key fs ms k, n, e, w, marked_now f.id job key fs ms k n) refl

  sent_new :
      (attrs : List AttrVal) (o : Bytes) (ms : List FedJob) (us : List Update)
      → IsMatching attrs
      → unique_key job ≡ ok key
      → any (is_mark f.id key) ms ≡ true
      → owner_of_job job ≡ some o
      → match_feed b ps get_attrs owner_of_job f job attrs (calm fs ms us)
        ≡ (ok tt, calm fs ms (us ++ update_of f job o attrs ∷ []))
  unfolding match_feed single_feed
  sent_new attrs o ms us h k n w = rw (h, checked f.id job key fs ms k, n, w) refl

  -- one call for each list of new attributes
  abbrev pub match_each : List (List AttrVal) → Act World (Unit {0})
  match_each [] = give tt
  match_each (attrs ∷ l) =
      λ w. after (match_feed b ps get_attrs owner_of_job f job attrs w) λ u. match_each l

  rest_new :
      (l : List (List AttrVal)) (o : Bytes) (ms : List FedJob) (us : List Update)
      → All IsMatching l
      → unique_key job ≡ ok key
      → any (is_mark f.id key) ms ≡ true
      → owner_of_job job ≡ some o
      → match_each l (calm fs ms us) ≡ (ok tt, calm fs ms (us ++ map (update_of f job o) l))
  rest_new [] o ms us h k n w =
      ap (λ (x : List Update). (ok tt, calm fs ms x)) (sym (append-nil us))
  rest_new (attrs ∷ l) o ms us (h, hs) k n w = rw (sent_new attrs o ms us h k n w) (
      rest_new l o ms (us ++ update_of f job o attrs ∷ []) hs k n w
      ∙ ap (λ (x : List Update). (ok tt, calm fs ms x))
          (append_assoc us (update_of f job o attrs ∷ []) (map (update_of f job o) l)))

  -- On a database that works, if the index server refuses no call and a job, whose key is `key`, is
  -- not marked yet, its attributes can be read with an owner among them, and its owner is known:
  -- calls with lists of new attributes that all match the feed send the attributes of the feed
  -- first, and from the second call on the new attributes only, each list in its turn. The job is
  -- then marked, once.
  pub match_each_lem :
      (attrs : List AttrVal) (l : List (List AttrVal)) (a : List AttrVal) (w : AttrVal) (o : Bytes)
      (ms : List FedJob) (us : List Update)
      → All IsMatching (attrs ∷ l)
      → unique_key job ≡ ok key
      → any (is_mark f.id key) ms ≡ false
      → full_feed b ps get_attrs owner_of_job f job ≡ ok a
      → first_named owner_attr a ≡ some w
      → owner_of_job job ≡ some o
      → match_each (attrs ∷ l) (calm fs ms us) ≡ (
        ok tt,
        calm fs
            (ms ++ mark_of f.id key ∷ [])
            (us ++ (update_of f job w.value a ∷ map (update_of f job o) l)),
      )
  match_each_lem attrs l a w o ms us (h, hs) k n e v g = rw (sent_whole attrs a w ms us h k n e v) (
      rest_new l o (ms ++ mark_of f.id key ∷ []) (us ++ update_of f job w.value a ∷ []) hs k
        (any-append f.id key ms) g
      ∙ ap (λ (x : List Update). (ok tt, calm fs (ms ++ mark_of f.id key ∷ []) x))
          (append_assoc us (update_of f job w.value a ∷ []) (map (update_of f job o) l)))
