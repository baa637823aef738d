-- ===== src/Index/Feeds/Locking.antt =====
-- The search for a feed to handle, and the lock that it takes.
use glite_jp.Base.{
  ℕ, zero, suc, [], ◌∷◌, Bool, true, false, not, ◌&&◌, Option, some, none, ◌==◌, if◌then◌else◌,
  Outcome, ok, err, fault, List, ◌≡◌, ◌≢◌, refl, sym, ◌∙◌, subst, arith, Bool-cases, inl, inr,
}
use glite_jp.Base.Act.{after, ◌>>=◌}
use glite_jp.Index.Feeds.Table.{
  FeedRow, IndexDb, Run, has_id, first, is_candidate, enoent_of, select_feed, lock_row, update,
  update_row, update_rows, matching, failing, remaining,
}
use glite_jp.Index.Feeds.{locked_one, lock_search_feed}
use glite_jp.Index.Feeds.Frame.{row_of, ids, Only, Only-update_rows}

abbrev pub Absent : ℕ → List ℕ → Type 0
Absent id [] = Unit
Absent id (x ∷ xs) = (id ≢ x) × Absent id xs

-- No two numbers are the same.
abbrev pub Distinct : List ℕ → Type 0
Distinct [] = Unit
Distinct (x ∷ xs) = Absent x xs × Distinct xs

pub row_of-Absent : (id : ℕ) (rs : List FeedRow) → Absent id (ids rs) → row_of id rs ≡ none
unfolding row_of
row_of-Absent id [] h = refl
row_of-Absent id (r ∷ rs) (n, h) = ground (arith, row_of-Absent id rs h)

pub row_of-first :
    (p : FeedRow → Bool) (rs : List FeedRow) (r : FeedRow)
    → Distinct (ids rs)
    → first p rs ≡ some r
    → (p r ≡ true) × (row_of r.uniqueid rs ≡ some r)
unfolding row_of first
row_of-first p [] r h e = cc
row_of-first p (x ∷ rs) r (n, h) e = elim (Bool-cases (p x)) [
  | inl q ↦
      subst (λ (y : FeedRow). (p y ≡ true) × (row_of y.uniqueid (x ∷ rs) ≡ some y)) (ground arith)
        (q, ground arith)
  | inr q ↦ ground (arith, row_of-first p rs r h, row_of-Absent x.uniqueid rs n)
]

abbrev pub free_with : ℕ → FeedRow → Bool
free_with id r = not r.locked && has_id id r

matching-Absent : (id : ℕ) (rs : List FeedRow) → Absent id (ids rs) → matching (free_with id) rs ≡ 0
unfolding matching
matching-Absent id [] h = refl
matching-Absent id (r ∷ rs) (n, h) = ground (arith, matching-Absent id rs h)

pub matching_one :
    (id : ℕ) (rs : List FeedRow) (r : FeedRow)
    → Distinct (ids rs)
    → row_of id rs ≡ some r
    → r.locked ≡ false
    → matching (free_with id) rs ≡ 1
unfolding matching row_of
matching_one id [] r h e k = cc
matching_one id (x ∷ rs) r (n, h) e k = ground (
  arith,
  matching_one id rs r h,
  λ (q : id ≡ x.uniqueid). matching-Absent id rs (subst (λ (u : ℕ). Absent u (ids rs)) (sym q) n),
)

pub row_of-updated :
    (id : ℕ) (p : FeedRow → Bool) (f : FeedRow → FeedRow) (rs : List FeedRow) (r : FeedRow)
    → ((x : FeedRow) → (f x).uniqueid ≡ x.uniqueid)
    → row_of id rs ≡ some r
    → p r ≡ true
    → row_of id (update_rows p f rs) ≡ some (f r)
unfolding update_rows row_of
row_of-updated id p f [] r h e k = cc
row_of-updated id p f (x ∷ rs) r h e k = elim (Bool-cases (id == x.uniqueid)) [
  | inl q ↦
      let same_row : x ≡ r = (ground arith) in
      subst
        (λ (y : FeedRow).
          (if id == (update_row p f x).uniqueid
            then some (update_row p f x)
            else row_of id (update_rows p f rs))
          ≡ some (f y))
        same_row (rw (subst (λ (y : FeedRow). p y ≡ true) (sym same_row) k) (ground (arith, h x)))
  | inr q ↦ elim (Bool-cases (p x)) [
    | inl b ↦ rw b (ground (arith, h x, row_of-updated id p f rs r h (ground arith) k))
    | inr b ↦ rw b (ground (arith, row_of-updated id p f rs r h (ground arith) k))
  ]
]

-- A feed was found: it met the search, its row was the one selected, and it is the only row that
-- changed, by its lock. Otherwise no row changed.
abbrev pub Chose : Bool → ℕ → IndexDb → Outcome (Option FeedRow) × IndexDb → Type 0
Chose b now s (ok (some r), t) =
    (is_candidate b now r ≡ true)
    × (row_of r.uniqueid s.feeds ≡ some r)
    × (row_of r.uniqueid t.feeds ≡ some (record r { locked = true }))
    × Only r.uniqueid s t
Chose b now s (ok none, t) = t.feeds ≡ s.feeds
Chose b now s (err e, t) = t.feeds ≡ s.feeds
Chose b now s (fault, t) = t.feeds ≡ s.feeds

pub candidate_unlocked :
    (b : Bool) (now : ℕ) (r : FeedRow) → is_candidate b now r ≡ true → r.locked ≡ false
candidate_unlocked true now r h = ground arith
candidate_unlocked false now r h = ground arith

-- what the update of the lock does to an unlocked feed
locked_lem :
    (b : Bool) (now : ℕ) (s : IndexDb) (r : FeedRow) (again : Run (Option FeedRow))
    → Distinct (ids s.feeds)
    → is_candidate b now r ≡ true
    → row_of r.uniqueid s.feeds ≡ some r
    → ((t : IndexDb) → t.feeds ≡ s.feeds → Chose b now s (again t))
    → Chose b now s (after (lock_row r.uniqueid s) λ n. locked_one r n again)
unfolding update
locked_lem b now s r again d c e h = elim (Bool-cases (failing s.outages)) [
  | inl q ↦ rw q (h (record s { outages = remaining s.outages }) refl)
  | inr q ↦
      rw (q, matching_one r.uniqueid s.feeds r d e (candidate_unlocked b now r c))
        (c, e, written.0, written.1)
]
  where
    lock : FeedRow → FeedRow
    lock x = record x { locked = true }

    written :
        (row_of r.uniqueid
            (update_rows (free_with r.uniqueid) (λ x. record x { locked = true }) s.feeds)
          ≡ some (record r { locked = true }))
        × Only r.uniqueid s (record {
          feeds = update_rows (free_with r.uniqueid) (λ x. record x { locked = true }) s.feeds;
          outages = remaining s.outages;
        })
    written = (
      row_of-updated r.uniqueid (free_with r.uniqueid) (λ x. record x { locked = true }) s.feeds r
          (λ x. refl) e (ground (arith, candidate_unlocked b now r c)),
      Only-update_rows r.uniqueid (free_with r.uniqueid) (λ x. record x { locked = true }) s
          (remaining s.outages) (λ x. (λ q. ground arith, refl)),
    )

same_feeds :
    (b : Bool) (now : ℕ) (s t : IndexDb) (x : Outcome (Option FeedRow) × IndexDb)
    → t.feeds ≡ s.feeds
    → Chose b now t x
    → Chose b now s x
same_feeds b now s t (ok (some r), u) e h =
    subst (λ (l : List FeedRow). Chose b now (record s { feeds = l }) (ok (some r), u)) e h
same_feeds b now s t (ok none, u) e h = h ∙ e
same_feeds b now s t (err c, u) e h = h ∙ e
same_feeds b now s t (fault, u) e h = h ∙ e

-- On a table whose numbers are distinct, and whatever the database refuses, a feed that
-- lock_search_feed returns met the search and was unlocked, stands in the table as it was selected,
-- and is then locked; no other row changed. Where none is returned, no row changed at all.
pub lock_search_feed-Chose :
    (fuel : ℕ) (b : Bool) (now : ℕ) (s : IndexDb)
    → Distinct (ids s.feeds)
    → Chose b now s (lock_search_feed fuel b now s)
unfolding lock_search_feed select_feed
lock_search_feed-Chose zero b now s d = refl
lock_search_feed-Chose (suc fuel) b now s d = elim (Bool-cases (failing s.outages)) [
  | inl q ↦ rw q refl
  | inr q ↦
      rw q (selected (lock_search_feed-Chose fuel b now) (first (is_candidate b now) s.feeds) refl)
]
  where
    next : IndexDb
    next = record s { outages = remaining s.outages }

    again :
        ((t : IndexDb) → Distinct (ids t.feeds) → Chose b now t (lock_search_feed fuel b now t))
        → (t : IndexDb) → t.feeds ≡ s.feeds
        → Chose b now next (lock_search_feed fuel b now t)
    again ih t e =
        same_feeds b now next t (lock_search_feed fuel b now t) e
          (ih t (subst (λ (l : List FeedRow). Distinct (ids l)) (sym e) d))

    selected :
        ((t : IndexDb) → Distinct (ids t.feeds) → Chose b now t (lock_search_feed fuel b now t))
        → (o : Option FeedRow) → first (is_candidate b now) s.feeds ≡ o
        → Chose b now s (
            after
              (enoent_of o, next)
              λ r. lock_row r.uniqueid >>= λ n. locked_one r n (lock_search_feed fuel b now))
    selected ih none e = refl
    selected ih (some r) e =
        let p = row_of-first (is_candidate b now) s.feeds r d e in
        locked_lem b now next r (lock_search_feed fuel b now) d p.0 p.1 (again ih)
