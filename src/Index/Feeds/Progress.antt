-- ===== src/Index/Feeds/Progress.antt =====
-- That the search for a feed ends, and finds one where there is one.
use glite_jp.Base.{
  ℕ, zero, suc, ◌<◌, [], ◌∷◌, Bool, true, false, Option, some, none, ◌==◌, Outcome, ok, List,
  length, ◌≡◌, ◌≢◌, refl, sym, ap, ◌∙◌, arith, Bool-cases, inl, inr,
}
use glite_jp.Base.Act.{after, ◌>>=◌}
use glite_jp.Index.Feeds.Table.{
  FeedRow, IndexDb, Run, first, is_candidate, enoent_of, select_feed, lock_row, update, update_rows,
  failing, remaining,
}
use glite_jp.Index.Feeds.{locked_one, lock_search_feed}
use glite_jp.Index.Feeds.Frame.{row_of, ids}
use glite_jp.Index.Feeds.Locking.{
  Distinct, row_of-first, matching_one, free_with, candidate_unlocked,
}

-- a database that works
abbrev pub working : List FeedRow → IndexDb
working rs = record { feeds = rs; outages = [] }

abbrev pub locked_rows : ℕ → List FeedRow → List FeedRow
locked_rows id rs = update_rows (free_with id) (λ r. record r { locked = true }) rs

pub lock_search_feed_lem :
    (fuel : ℕ) (b : Bool) (now : ℕ) (rs : List FeedRow) (r : FeedRow)
    → Distinct (ids rs)
    → first (is_candidate b now) rs ≡ some r
    → lock_search_feed (suc fuel) b now (working rs)
      ≡ (ok (some r), working (locked_rows r.uniqueid rs))
unfolding lock_search_feed select_feed update
lock_search_feed_lem fuel b now rs r d e =
    let p = row_of-first (is_candidate b now) rs r d e in
    rw (e, matching_one r.uniqueid rs r d p.1 (candidate_unlocked b now r p.0)) refl

first-some :
    (p : FeedRow → Bool) (u : ℕ) (rs : List FeedRow) (r : FeedRow)
    → row_of u rs ≡ some r
    → p r ≡ true
    → (x : FeedRow) × (first p rs ≡ some x)
unfolding first row_of
first-some p u [] r e h = cc
first-some p u (x ∷ rs) r e h = elim (Bool-cases (p x)) [
  | inl q ↦ (x, ground arith)
  | inr q ↦ elim (Bool-cases (u == x.uniqueid)) [
    | inl k ↦
        let row : x ≡ r = (ground arith) in
        let both : true ≡ false = sym h ∙ ap p (sym row) ∙ q in absurd (cc both)
    | inr k ↦ rw q (first-some p u rs r (ground arith) h)
  ]
]

-- On a database that works, with distinct numbers, if a feed meets the search, then the first round
-- of lock_search_feed already returns one.
pub lock_search_feed_finds :
    (fuel : ℕ) (b : Bool) (now : ℕ) (rs : List FeedRow) (u : ℕ) (r : FeedRow)
    → Distinct (ids rs)
    → row_of u rs ≡ some r
    → is_candidate b now r ≡ true
    → (x : FeedRow) × ((lock_search_feed (suc fuel) b now (working rs)).0 ≡ ok (some x))
lock_search_feed_finds fuel b now rs u r d e h =
    let f = first-some (is_candidate b now) u rs r e h in
    (
      f.0,
      ap (λ (o : Outcome (Option FeedRow) × IndexDb). o.0)
          (lock_search_feed_lem fuel b now rs f.0 d f.1),
    )

abbrev Decided : Outcome (Option FeedRow) × IndexDb → Type 0
Decided x = x.0 ≢ ok none

shorter :
    (l : List Bool) (n : ℕ)
    → failing (remaining l) ≡ true
    → length l < suc n
    → length (remaining (remaining l)) < n
shorter [] n h k = cc
shorter (b ∷ []) n h k = cc
shorter (b ∷ c ∷ l) n h k = omega arith

Decided-locked :
    (b : Bool) (now : ℕ) (s : IndexDb) (r : FeedRow) (again : Run (Option FeedRow))
    → Distinct (ids s.feeds)
    → is_candidate b now r ≡ true
    → row_of r.uniqueid s.feeds ≡ some r
    → (failing s.outages ≡ true → Decided (again (record s { outages = remaining s.outages })))
    → Decided (after (lock_row r.uniqueid s) λ n. locked_one r n again)
unfolding update
Decided-locked b now s r again d c e h = elim (Bool-cases (failing s.outages)) [
  | inl q ↦ rw q (h q)
  | inr q ↦ rw (q, matching_one r.uniqueid s.feeds r d e (candidate_unlocked b now r c)) (λ p. cc p)
]

-- With distinct numbers and one round more than there are outages to come, lock_search_feed ends:
-- it returns a feed or an error.
pub lock_search_feed_ends :
    (fuel : ℕ) (b : Bool) (now : ℕ) (s : IndexDb)
    → Distinct (ids s.feeds)
    → length s.outages < fuel
    → (lock_search_feed fuel b now s).0 ≢ ok none
unfolding lock_search_feed select_feed
lock_search_feed_ends zero b now s d h = absurd (omega arith)
lock_search_feed_ends (suc fuel) b now s d h = elim (Bool-cases (failing s.outages)) [
  | inl q ↦ rw q (λ p. cc p)
  | inr q ↦ rw q (
      selected (λ k. lock_search_feed_ends fuel b now _ d (shorter s.outages fuel k h))
        (first (is_candidate b now) s.feeds) refl)
]
  where
    next : IndexDb
    next = record s { outages = remaining s.outages }

    selected :
        (failing (remaining s.outages) ≡ true
          → Decided (
              lock_search_feed fuel b now (record s { outages = remaining (remaining s.outages) })))
        → (o : Option FeedRow) → first (is_candidate b now) s.feeds ≡ o
        → Decided (
            after
              (enoent_of o, next)
              λ r. lock_row r.uniqueid >>= λ n. locked_one r n (lock_search_feed fuel b now))
    selected ih none e = λ p. cc p
    selected ih (some r) e =
        let p = row_of-first (is_candidate b now) s.feeds r d e in
        Decided-locked b now next r (lock_search_feed fuel b now) d p.0 p.1 ih
