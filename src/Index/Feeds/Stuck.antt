-- ===== src/Index/Feeds/Stuck.antt =====
-- A feed whose process has no credentials: it stays locked.
use glite_jp.Base.{
  ℕ, zero, suc, ◌+◌, Bool, true, false, Option, some, Outcome, ok, List, ◌≡◌, refl, sym, ap, ◌∙◌,
  subst, arith,
}
use glite_jp.Base.Act.{after, give}
use glite_jp.Index.Feeds.Table.{FeedRow, IndexDb, has_id, first, is_candidate, update, update_rows}
use glite_jp.Index.Feeds.{
  ConfFeed, Answer, no_credentials, my_feed_index, attempts, until_done, handle_feed, handle_found,
  feed_pass, feed_caller, call_storage, give_up, unless_done, try_reconnect_feed, with_error,
  reconnect_time,
}
use glite_jp.Index.Feeds.Frame.{row_of, ids, ids-update_rows}
use glite_jp.Index.Feeds.Locking.{Distinct, row_of-first, row_of-updated, free_with}
use glite_jp.Index.Feeds.Locked.{feed_caller-locked}
use glite_jp.Index.Feeds.Progress.{working, locked_rows, lock_search_feed_lem}
use glite_jp.Index.Feeds.Rounds.{row_of-locked_rows}

failing_attempts :
    (n i e : ℕ) (f : ℕ → IndexDb → Outcome ℕ × IndexDb) (s : IndexDb)
    → ((j : ℕ) → f j s ≡ (ok (suc e), s))
    → attempts n i f s ≡ (ok false, s)
unfolding attempts
failing_attempts zero i e f s h = refl
failing_attempts (suc n) i e f s h =
    ap (λ (x : Outcome ℕ × IndexDb). after x λ ret. until_done ret (attempts n (suc i) f)) (h i)
    ∙ failing_attempts n (suc i) e f s h

-- the table after ten failures
abbrev given_up : ℕ → FeedRow → List FeedRow → List FeedRow
given_up now r rs =
    update_rows (has_id r.uniqueid)
      (λ x. record x { state = with_error r.state; expires = some (now + reconnect_time) })
      (locked_rows r.uniqueid rs)

-- a process that never has credentials
module _ (conf : List ConfFeed) (calls : ℕ → Answer)
    (none_there : (i : ℕ) → calls i ≡ no_credentials) where
  handle_refused :
      (now : ℕ) (rs : List FeedRow) (r : FeedRow)
      → handle_feed conf calls false now r (working (locked_rows r.uniqueid rs))
        ≡ (ok 0, working (given_up now r rs))
  unfolding handle_feed try_reconnect_feed update
  handle_refused now rs r =
      ap (λ (x : Outcome Bool × IndexDb). after x λ d. unless_done d (give_up false now r))
        (failing_attempts 10 0 21 (call_storage conf calls false now r)
          (working (locked_rows r.uniqueid rs))
          λ j.
            ap
              (λ (a : Answer).
                my_feed_index conf a now r.uniqueid (working (locked_rows r.uniqueid rs)))
              (none_there j))

  pub feed_pass_gives_up :
      (fuel now : ℕ) (rs : List FeedRow) (r : FeedRow)
      → Distinct (ids rs)
      → first (is_candidate false now) rs ≡ some r
      → feed_pass (suc fuel) conf calls false now (working rs)
        ≡ (ok (some true), working (given_up now r rs))
  unfolding feed_pass
  feed_pass_gives_up fuel now rs r d e =
      ap
        (λ (x : Outcome (Option FeedRow) × IndexDb).
          handle_found x (handle_feed conf calls false now))
        (lock_search_feed_lem fuel false now rs r d e)
      ∙ ap (λ (x : Outcome ℕ × IndexDb). after x λ n. give (some true)) (handle_refused now rs r)

given_up_row :
    (now : ℕ) (rs : List FeedRow) (r : FeedRow)
    → row_of r.uniqueid rs ≡ some r
    → is_candidate false now r ≡ true
    → row_of r.uniqueid (given_up now r rs)
      ≡ some (record r {
        locked = true;
        state = with_error r.state;
        expires = some (now + reconnect_time);
      })
given_up_row now rs r e c =
    row_of-updated r.uniqueid (has_id r.uniqueid)
      (λ x. record x { state = with_error r.state; expires = some (now + reconnect_time) })
      (locked_rows r.uniqueid rs) (record r { locked = true }) (λ x. refl)
      (row_of-locked_rows false now rs r e c) (ground arith)

ids-given_up : (now : ℕ) (rs : List FeedRow) (r : FeedRow) → ids (given_up now r rs) ≡ ids rs
ids-given_up now rs r =
    ids-update_rows (has_id r.uniqueid) _ (locked_rows r.uniqueid rs) (λ x. refl)
    ∙ ids-update_rows (free_with r.uniqueid) _ rs (λ x. refl)

-- Rounds of feeding processes, one behind the other, with any answers at any times.
pub data Rounds : IndexDb → IndexDb → Type 0 where
  stop : (s : IndexDb) → Rounds s s
  round :
      (s t : IndexDb) (fuel now : ℕ) (conf : List ConfFeed) (calls calls' : ℕ → Answer)
      → Rounds (feed_caller fuel conf calls calls' now s).1 t
      → Rounds s t

locked_stays :
    (s t : IndexDb) (u : ℕ) (r : FeedRow)
    → Rounds s t
    → Distinct (ids s.feeds)
    → row_of u s.feeds ≡ some r
    → r.locked ≡ true
    → row_of u t.feeds ≡ some r
locked_stays s t u r (stop s') d e h = e
locked_stays s t u r (round s' t' fuel now conf calls calls' l) d e h =
    let p = feed_caller-locked conf fuel calls calls' now s u r d e h in
    locked_stays (feed_caller fuel conf calls calls' now s).1 t u r l p.0 p.1 h

-- On a database that works, with distinct numbers, a process that has no credentials in any of its
-- ten attempts marks the first feed to be registered for a later attempt, and leaves it locked;
-- after any rounds to come, with whatever answers, it still is.
pub stuck_feed :
    (fuel now : ℕ) (conf : List ConfFeed) (calls : ℕ → Answer) (rs : List FeedRow) (r : FeedRow)
    (t : IndexDb)
    → ((i : ℕ) → calls i ≡ no_credentials)
    → Distinct (ids rs)
    → first (is_candidate false now) rs ≡ some r
    → Rounds (feed_pass (suc fuel) conf calls false now (working rs)).1 t
    → row_of r.uniqueid t.feeds
      ≡ some (record r {
        locked = true;
        state = with_error r.state;
        expires = some (now + reconnect_time);
      })
stuck_feed fuel now conf calls rs r t h d e l =
    let p = row_of-first (is_candidate false now) rs r d e in
    locked_stays (working (given_up now r rs)) t r.uniqueid
      (record r {
        locked = true;
        state = with_error r.state;
        expires = some (now + reconnect_time);
      })
      (subst (λ (x : Outcome (Option Bool) × IndexDb). Rounds x.1 t)
        (feed_pass_gives_up conf calls h fuel now rs r d e) l)
      (subst (λ (m : List ℕ). Distinct m) (sym (ids-given_up now rs r)) d)
      (given_up_row now rs r p.1 p.0) refl
