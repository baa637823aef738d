-- ===== src/Index/Feeds/Rounds.antt =====
-- What one round of a feeding process makes of a feed that was not registered yet.
use glite_jp.Base.{
  ℕ, suc, ◌+◌, ◌-◌, ◌/◌, ◌≤◌, [], ◌∷◌, Bytes, Bool, true, false, Option, some, none, if◌then◌else◌,
  Outcome, ok, einval, List, ◌≡◌, refl, ap, ◌∙◌, arith, Bool-cases, inl, inr,
}
use glite_jp.Base.Act.{after, give}
use glite_jp.Index.Feeds.Table.{
  FeedRow, IndexDb, has_id, first, is_candidate, is_taken, update, update_rows, init_row,
}
use glite_jp.Index.Feeds.{
  ConfFeed, Answer, accepted, find_dest_index, feed_status, my_feed_index, found_index,
  store_answer, init_feed, unlock_feed, half_way, attempts, handle_feed, handle_found, feed_pass,
  call_storage, give_up, unless_done,
}
use glite_jp.Index.Feeds.Frame.{row_of, ids}
use glite_jp.Index.Feeds.Locking.{
  Distinct, row_of-first, row_of-updated, free_with, candidate_unlocked,
}
use glite_jp.Index.Feeds.Progress.{working, locked_rows, lock_search_feed_lem}

pub row_of-locked_rows :
    (b : Bool) (now : ℕ) (rs : List FeedRow) (r : FeedRow)
    → row_of r.uniqueid rs ≡ some r
    → is_candidate b now r ≡ true
    → row_of r.uniqueid (locked_rows r.uniqueid rs) ≡ some (record r { locked = true })
row_of-locked_rows b now rs r e c =
    row_of-updated r.uniqueid (free_with r.uniqueid) (λ x. record x { locked = true }) rs r
      (λ x. refl) e (ground (arith, candidate_unlocked b now r c))

taken_locked :
    (id k : ℕ) (g : Bytes) (rs : List FeedRow)
    → first (is_taken id g) rs ≡ none
    → first (is_taken id g) (locked_rows k rs) ≡ none
unfolding first update_rows
taken_locked id k g [] h = refl
taken_locked id k g (r ∷ rs) h = elim (Bool-cases (is_taken id g r)) [
  | inl q ↦ absurd (ground arith)
  | inr q ↦ elim (Bool-cases (free_with k r)) [
    | inl w ↦ rw w (ground (arith, taken_locked id k g rs))
    | inr w ↦ rw w (ground (arith, taken_locked id k g rs))
  ]
]

store_answer_lem :
    (now id : ℕ) (g : Bytes) (e n : ℕ) (rs : List FeedRow) (r : FeedRow)
    → first (is_taken id g) rs ≡ none
    → row_of id rs ≡ some r
    → r.uniqueid ≡ id
    → (t : IndexDb) × (store_answer now id g e n (working rs) ≡ (ok 0, t))
      × (row_of id t.feeds
          ≡ some (record r {
            feedid = some g;
            expires = some (half_way now (half_way now e));
            state = n;
            locked = false;
          }))
unfolding store_answer init_feed init_row unlock_feed update
store_answer_lem now id g e n rs r h k same =
    let time : ℕ = half_way now (half_way now e) in
    let rs1 : List FeedRow =
      update_rows (has_id id) (λ x. record x { feedid = some g; expires = some time; state = n })
        rs in
    let rs2 : List FeedRow = update_rows (has_id id) (λ x. record x { locked = false }) rs1 in
    (
      working rs2,
      rw h refl,
      row_of-updated id (has_id id) (λ x. record x { locked = false }) rs1
          (record r { feedid = some g; expires = some time; state = n }) (λ x. refl)
          (row_of-updated id (has_id id)
            (λ x. record x { feedid = some g; expires = some time; state = n }) rs r (λ x. refl) k
            (ground arith))
          (ground arith),
    )

my_feed_index_lem :
    (conf : List ConfFeed) (f : ConfFeed) (g : Bytes) (e now id : ℕ) (s : IndexDb)
    → find_dest_index conf id ≡ some f
    → f.converts ≡ true
    → my_feed_index conf (accepted g e) now id s ≡ store_answer now id g e (feed_status f) s
my_feed_index_lem conf f g e now id s h k =
    ap (λ (o : Option ConfFeed). found_index o (accepted g e) now id s) h
    ∙ ap (λ (b : Bool). if b then store_answer now id g e (feed_status f) s else (ok einval, s)) k

quarter : (now e : ℕ) → now ≤ e → half_way now (half_way now e) ≡ now + (e - now) / 4
quarter now e h = ground arith

done_lem :
    (f : ℕ → IndexDb → Outcome ℕ × IndexDb) (s t : IndexDb)
    → f 0 s ≡ (ok 0, t)
    → attempts 10 0 f s ≡ (ok true, t)
unfolding attempts
done_lem f s t h = rw h refl

handle_accepted :
    (conf : List ConfFeed) (calls : ℕ → Answer) (f : ConfFeed) (g : Bytes) (e now : ℕ)
    (rs : List FeedRow) (r q : FeedRow)
    → calls 0 ≡ accepted g e
    → find_dest_index conf r.uniqueid ≡ some f
    → f.converts ≡ true
    → first (is_taken r.uniqueid g) rs ≡ none
    → row_of r.uniqueid rs ≡ some q
    → q.uniqueid ≡ r.uniqueid
    → (t : IndexDb) × (handle_feed conf calls false now r (working rs) ≡ (ok 0, t))
      × (row_of r.uniqueid t.feeds
          ≡ some (record q {
            feedid = some g;
            expires = some (half_way now (half_way now e));
            state = feed_status f;
            locked = false;
          }))
unfolding handle_feed
handle_accepted conf calls f g e now rs r q c h k n w same =
    let p = store_answer_lem now r.uniqueid g e (feed_status f) rs q n w same in
    let called : my_feed_index conf (calls 0) now r.uniqueid (working rs) ≡ (ok 0, p.0) =
      ap (λ (a : Answer). my_feed_index conf a now r.uniqueid (working rs)) c
      ∙ my_feed_index_lem conf f g e now r.uniqueid (working rs) h k
      ∙ p.1 in
    (
      p.0,
      ap (λ (x : Outcome Bool × IndexDb). after x λ d. unless_done d (give_up false now r))
          (done_lem (call_storage conf calls false now r) (working rs) p.0 called),
      p.2,
    )

-- On a database that works, with distinct numbers, for the first feed that is to be registered,
-- which is configured with conditions that convert, when the storage accepts it with an identifier
-- that no other feed has and a time that is not past: the feed is then unlocked, has the identifier
-- and the configured state, and is due for a refresh after a quarter of the time that it has.
pub feed_pass_registers :
    (fuel : ℕ) (conf : List ConfFeed) (calls : ℕ → Answer) (f : ConfFeed) (g : Bytes) (e now : ℕ)
    (rs : List FeedRow) (r : FeedRow)
    → Distinct (ids rs)
    → first (is_candidate false now) rs ≡ some r
    → calls 0 ≡ accepted g e
    → now ≤ e
    → find_dest_index conf r.uniqueid ≡ some f
    → f.converts ≡ true
    → first (is_taken r.uniqueid g) rs ≡ none
    → (t : IndexDb) × (feed_pass (suc fuel) conf calls false now (working rs) ≡ (ok (some true), t))
      × (row_of r.uniqueid t.feeds
          ≡ some (record r {
            feedid = some g;
            expires = some (now + (e - now) / 4);
            state = feed_status f;
            locked = false;
          }))
unfolding feed_pass
feed_pass_registers fuel conf calls f g e now rs r d first_one c late h k n =
    let p = row_of-first (is_candidate false now) rs r d first_one in
    let q =
      handle_accepted conf calls f g e now (locked_rows r.uniqueid rs) r
        (record r { locked = true }) c h k (taken_locked r.uniqueid r.uniqueid g rs n)
        (row_of-locked_rows false now rs r p.1 p.0) refl in
    (
      q.0,
      ap
            (λ (x : Outcome (Option FeedRow) × IndexDb).
              handle_found x (handle_feed conf calls false now))
            (lock_search_feed_lem fuel false now rs r d first_one)
          ∙ ap (λ (x : Outcome ℕ × IndexDb). after x λ n. give (some true)) q.1,
      q.2
          ∙ ap
              (λ (w : ℕ). some (record r {
                feedid = some g;
                expires = some w;
                state = feed_status f;
                locked = false;
              }))
              (quarter now e late),
    )
