-- ===== src/Index/Feeds/Locked.antt =====
-- What the processes of the index server do to a feed that is locked: nothing.
use glite_jp.Base.{
  ℕ, Bool, true, false, Option, some, none, ◌==◌, Outcome, ok, err, fault, enoent, List, ◌≡◌, refl,
  sym, ap, ◌∙◌, subst, Bool-cases, inl, inr,
}
use glite_jp.Base.Act
use glite_jp.Base.Act.{after, ◌>>=◌, give, Keeps}
use glite_jp.Index.Feeds.Table.{FeedRow, IndexDb}
use glite_jp.Index.Feeds.{
  ConfFeed, Answer, lock_search_feed, handle_feed, handle_found, feed_pass, feed_caller,
}
use glite_jp.Index.Feeds.Frame.{row_of, ids, Only, Only-handle_feed}
use glite_jp.Index.Feeds.Locking.{Distinct, Chose, lock_search_feed-Chose, candidate_unlocked}

-- The numbers stay distinct, and locked rows stay as they are.
abbrev pub Frozen : IndexDb → IndexDb → Type 0
Frozen s t =
    Distinct (ids s.feeds)
    → Distinct (ids t.feeds)
      × ((u : ℕ) (r : FeedRow)
          → row_of u s.feeds ≡ some r
          → r.locked ≡ true
          → row_of u t.feeds ≡ some r)

Frozen-trans : (s t u : IndexDb) → Frozen s t → Frozen t u → Frozen s u
Frozen-trans s t u h k d = let p = h d in let q = k p.0 in (q.0, λ v r e l. q.1 v r (p.1 v r e l) l)

Frozen-same : (s t : IndexDb) → t.feeds ≡ s.feeds → Frozen s t
Frozen-same s t e d = (
  subst (λ (l : List FeedRow). Distinct (ids l)) (sym e) d,
  λ u r h k. ap (λ (l : List FeedRow). row_of u l) e ∙ h,
)

-- Where the row with this number was not locked, changing it alone leaves the locked rows.
Frozen-Only :
    (s t : IndexDb) (r : FeedRow)
    → row_of r.uniqueid s.feeds ≡ some r
    → r.locked ≡ false
    → Only r.uniqueid s t
    → Frozen s t
Frozen-Only s t r e k (i, h) d =
    (subst (λ (l : List ℕ). Distinct l) (sym i) d, λ u x p q. h u (λ same. other u x p q same) ∙ p)
  where
    other : (u : ℕ) (x : FeedRow) → row_of u s.feeds ≡ some x → x.locked ≡ true → r.uniqueid ≡ u → ⊥
    other u x p q same =
        let found : some r ≡ some x = sym e ∙ ap (λ (n : ℕ). row_of n s.feeds) same ∙ p in
        let row : r ≡ x = (cc) in
        let both : true ≡ false = sym q ∙ sym (ap (λ (y : FeedRow). y.locked) row) ∙ k in cc

module _ (conf : List ConfFeed) where
  Frozen-found :
      (calls : ℕ → Answer) (b : Bool) (now : ℕ) (s : IndexDb)
      (x : Outcome (Option FeedRow) × IndexDb)
      → Chose b now s x
      → Frozen s (handle_found x (handle_feed conf calls b now)).1
  Frozen-found calls b now s (ok none, t) h = Frozen-same s t h
  Frozen-found calls b now s (ok (some r), t) (c, e, l, o) =
      Frozen-Only s (after (handle_feed conf calls b now r t) λ n. give (some true)).1 r e
        (candidate_unlocked b now r c)
        (whole (handle_feed conf calls b now r t) (Only-handle_feed conf calls b now r t))
    where
      whole :
          (y : Outcome ℕ × IndexDb)
          → Only r.uniqueid t y.1
          → Only r.uniqueid s (after y λ n. give (some true)).1
      whole (ok n, w) (i, k) = (i ∙ o.0, λ v m. k v m ∙ o.1 v m)
      whole (err n, w) (i, k) = (i ∙ o.0, λ v m. k v m ∙ o.1 v m)
      whole (fault, w) (i, k) = (i ∙ o.0, λ v m. k v m ∙ o.1 v m)
  Frozen-found calls b now s (err e, t) h = elim (Bool-cases (e == enoent)) [
    | inl q ↦ rw q (Frozen-same s t h)
    | inr q ↦ rw q (Frozen-same s t h)
  ]
  Frozen-found calls b now s (fault, t) h = Frozen-same s t h

  Frozen-feed_pass :
      (fuel : ℕ) (calls : ℕ → Answer) (b : Bool) (now : ℕ)
      → Keeps Frozen (feed_pass fuel conf calls b now)
  unfolding feed_pass
  Frozen-feed_pass fuel calls b now s d =
      Frozen-found calls b now s (lock_search_feed fuel b now s)
        (lock_search_feed-Chose fuel b now s d) d

  feed_caller-Frozen :
      (fuel : ℕ) (calls calls' : ℕ → Answer) (now : ℕ)
      → Keeps Frozen (feed_caller fuel conf calls calls' now)
  unfolding feed_caller
  feed_caller-Frozen fuel calls calls' now =
      Act.Keeps-bind Frozen (feed_pass fuel conf calls false now) _ Frozen-trans
        (Frozen-feed_pass fuel calls false now)
        λ a.
          Act.Keeps-bind Frozen (feed_pass fuel conf calls' true now) _ Frozen-trans
            (Frozen-feed_pass fuel calls' true now) λ b t. Frozen-same t t refl

  -- On a table whose numbers are distinct, one round of a feeding process leaves a locked feed
  -- exactly as it is, whatever the primary storages answer and the database refuses, and the
  -- numbers stay distinct.
  pub feed_caller-locked :
      (fuel : ℕ) (calls calls' : ℕ → Answer) (now : ℕ) (s : IndexDb) (u : ℕ) (r : FeedRow)
      → Distinct (ids s.feeds)
      → row_of u s.feeds ≡ some r
      → r.locked ≡ true
      → Distinct (ids (feed_caller fuel conf calls calls' now s).1.feeds)
        × (row_of u (feed_caller fuel conf calls calls' now s).1.feeds ≡ some r)
  feed_caller-locked fuel calls calls' now s u r d h k =
      let f = feed_caller-Frozen fuel calls calls' now s d in (f.0, f.1 u r h k)
