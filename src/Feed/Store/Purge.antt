-- ===== src/Feed/Store/Purge.antt =====
-- The purge of feeds that are past: what it keeps, whichever statements fail, and what it removes.
pub mod Removed
use glite_jp.Base.{
  ℕ, ◌≤◌, ltb, All, ◌⊎◌, [], ◌∷◌, Bytes, same, same_iff, Bool, Bool-cases, true, false, ◌||◌, inl,
  inr, List, some, ◌≡◌, refl, sym, ap, ◌∙◌, arith,
}
use glite_jp.Base.Act.{Keeps, Keeps-bind}
use glite_jp.Uploads.Tables.{any, is_down, rest}
use glite_jp.Feed.Batch.{is_among}
use glite_jp.Feed.Store.{
  SavedFeed, FedJob, FeedTables, select, exec_sql, is_mark, overdue, unmarked, delete_marks,
  standing, purge_feeds,
}

differs : (x id y : Bytes) → same x id ≡ false → same x y ≡ true → same id y ≡ false
differs x id y h e = elim (Bool-cases (same id y)) [
  | inl k ↦
      let q : same x id ≡ true =
        (same_iff x id).1 ((same_iff x y).0 e ∙ sym ((same_iff id y).0 k)) in
      cc
  | inr k ↦ k
]

other_marks :
    (x id key : Bytes) (rs : List FedJob)
    → same x id ≡ false
    → any (is_mark id key) (unmarked x rs) ≡ any (is_mark id key) rs
other_marks x id key [] h = refl
other_marks x id key (r ∷ rs) h = elim (Bool-cases (same x r.feedid)) [
  | inl e ↦ rw (e, differs x id r.feedid h e) (other_marks x id key rs h ∙ ground arith)
  | inr e ↦ rw e (ap (λ (b : Bool). is_mark id key r || b) (other_marks x id key rs h))
]

-- The feed is a row of the table.
abbrev pub Stored : SavedFeed → List SavedFeed → Type 0
Stored f [] = ⊥
Stored f (x ∷ xs) = (x ≡ f) ⊎ Stored f xs

-- No feed with the identifier is past.
abbrev pub NotPast : ℕ → Bytes → List SavedFeed → Type 0
NotPast now id fs = All (λ (g : SavedFeed). same id g.feedid ≡ true → now ≤ g.expires) fs

still-Stored :
    (now : ℕ) (f : SavedFeed) (fs : List SavedFeed)
    → now ≤ f.expires
    → Stored f fs
    → Stored f (standing now fs)
still-Stored now f [] h s = s
still-Stored now f (x ∷ xs) h (inl e) =
    let q : ltb x.expires now ≡ false =
      ap (λ (g : SavedFeed). ltb g.expires now) e ∙ ground arith in
    rw q (inl e)
still-Stored now f (x ∷ xs) h (inr s) = elim (Bool-cases (ltb x.expires now)) [
  | inl e ↦ rw e (still-Stored now f xs h s)
  | inr e ↦ rw e (inr (still-Stored now f xs h s))
]

not_among :
    (now : ℕ) (id : Bytes) (fs : List SavedFeed)
    → NotPast now id fs
    → is_among id (overdue now fs) ≡ false
not_among now id [] h = refl
not_among now id (x ∷ xs) (k, h) = elim (Bool-cases (ltb x.expires now)) [
  | inl e ↦ rw e (elim (Bool-cases (same id x.feedid)) [
    | inl m ↦ absurd (ground (arith, k m))
    | inr m ↦ ground (arith, swapped m, not_among now id xs h)
  ])
  | inr e ↦ rw e (not_among now id xs h)
]
  where
    swapped : same id x.feedid ≡ false → same x.feedid id ≡ false
    swapped m = elim (Bool-cases (same x.feedid id)) [
      | inl k ↦
          let q : same id x.feedid ≡ true =
            (same_iff id x.feedid).1 (sym ((same_iff x.feedid id).0 k)) in
          cc
      | inr k ↦ k
    ]

module _ (now : ℕ) (f : SavedFeed) (id key : Bytes) (live : now ≤ f.expires) where
  abbrev Kept : FeedTables → FeedTables → Type 0
  Kept s t =
      (Stored f s.feeds → Stored f t.feeds)
      × (any (is_mark id key) t.fed_jobs ≡ any (is_mark id key) s.fed_jobs)

  Kept_trans : (s t u : FeedTables) → Kept s t → Kept t u → Kept s u
  Kept_trans s t u (a, b) (c, d) = ((λ h. c (a h)), d ∙ b)

  exec-Kept :
      (g : FeedTables → FeedTables)
      → ((s : FeedTables) → Kept s (g s))
      → Keeps Kept (exec_sql λ s. some (g s))
  unfolding exec_sql
  exec-Kept g h s = elim (Bool-cases (is_down s.outages)) [
    | inl e ↦ rw e ((λ k. k), refl)
    | inr e ↦ rw e (h (record s { outages = rest s.outages }))
  ]

  delete-Kept : (ids : List Bytes) → is_among id ids ≡ false → Keeps Kept (delete_marks ids)
  unfolding delete_marks
  delete-Kept [] h = λ s. ((λ k. k), refl)
  delete-Kept (x ∷ ids) h =
      Keeps-bind Kept (exec_sql λ s. some (record s { fed_jobs = unmarked x s.fed_jobs }))
        (λ u. delete_marks ids) Kept_trans
        (exec-Kept (λ s. record s { fed_jobs = unmarked x s.fed_jobs })
          λ s. ((λ k. k), other_marks x id key s.fed_jobs (ground arith)))
        λ u. delete-Kept ids (ground arith)

  removed-Kept : Keeps Kept (exec_sql λ s. some (record s { feeds = standing now s.feeds }))
  removed-Kept =
      exec-Kept (λ s. record s { feeds = standing now s.feeds })
        λ s. (still-Stored now f s.feeds live, refl)

  -- Whichever statements fail, a purge at the time `now` keeps each stored feed that ends at `now` or
  -- later; and it keeps the marks of a feed by its identifier, and makes none, if no stored feed that
  -- ends before `now` has this identifier.
  pub purge_feeds-Kept :
      (s : FeedTables)
      → Stored f s.feeds
      → NotPast now id s.feeds
      → Stored f (purge_feeds now s).1.feeds
        × (any (is_mark id key) (purge_feeds now s).1.fed_jobs ≡ any (is_mark id key) s.fed_jobs)
  unfolding purge_feeds select
  purge_feeds-Kept s m h = elim (Bool-cases (is_down s.outages)) [
    | inl e ↦ rw e (m, refl)
    | inr e ↦ rw e (
        let k =
          Keeps-bind Kept (delete_marks (overdue now s.feeds))
            (λ u. exec_sql λ t. some (record t { feeds = standing now t.feeds })) Kept_trans
            (delete-Kept (overdue now s.feeds) (not_among now id s.feeds h)) (λ u. removed-Kept)
            (record s { outages = rest s.outages }) in
        (k.0 m, k.1))
  ]
