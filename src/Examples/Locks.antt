-- ===== src/Examples/Locks.antt =====
-- The feeds of the index server at concrete values.
use glite_jp.Base.{
  ℕ, ◌+◌, ◌-◌, ◌/◌, [], ◌∷◌, codes, same, true, false, some, none, ok, List, ◌≡◌, ◌≢◌, refl, arith,
}
use glite_jp.Index.Feeds.Table.{FeedRow, IndexDb, is_candidate, first, is_taken}
use glite_jp.Index.Feeds.{
  ConfFeed, Answer, no_credentials, accepted, lock_search_feed, feed_pass, feed_caller,
}
use glite_jp.Index.Feeds.Frame.{row_of, ids}
use glite_jp.Index.Feeds.Locking.{Distinct, Chose, lock_search_feed-Chose}
use glite_jp.Index.Feeds.Locked.{feed_caller-locked}
use glite_jp.Index.Feeds.Progress.{working, lock_search_feed_finds, lock_search_feed_ends}
use glite_jp.Index.Feeds.Rounds.{feed_pass_registers}
use glite_jp.Index.Feeds.Stuck.{Rounds, stuck_feed}

abbrev held : FeedRow
held = record {
  uniqueid = 1;
  feedid = some (codes "abc");
  state = 3;
  locked = true;
  source = codes "https://ps1";
  expires = some 50;
}

abbrev fresh : FeedRow
fresh = record {
  uniqueid = 2;
  feedid = none;
  state = 1;
  locked = false;
  source = codes "https://ps2";
  expires = none;
}

abbrev table : List FeedRow
table = held ∷ fresh ∷ []

-- the second statement fails
abbrev shaky : IndexDb
shaky = record { feeds = table; outages = false ∷ true ∷ [] }

abbrev feed_two : ConfFeed
feed_two = record { uniqueid = 2; history = true; continuous = true; converts = true }

abbrev yes_calls : ℕ → Answer
yes_calls i = accepted (codes "def") 500

abbrev no_calls : ℕ → Answer
no_calls i = no_credentials

distinct : Distinct (ids table)
distinct = (((λ e. absurd (omega arith)), tt), (tt, tt))

held_there : row_of 1 table ≡ some held
unfolding row_of
held_there = refl

fresh_there : row_of 2 table ≡ some fresh
unfolding row_of
fresh_there = refl

fresh_found : first (is_candidate false 100) table ≡ some fresh
unfolding first
fresh_found = refl

untaken : first (is_taken 2 (codes "def")) table ≡ none
unfolding first same
untaken = refl

lock_search_feed-Chose_example : Chose false 100 shaky (lock_search_feed 2 false 100 shaky)
lock_search_feed-Chose_example = lock_search_feed-Chose 2 false 100 shaky distinct

lock_search_feed_ends_example : (lock_search_feed 3 false 100 shaky).0 ≢ ok none
lock_search_feed_ends_example = lock_search_feed_ends 3 false 100 shaky distinct (omega arith)

lock_search_feed_finds_example :
    (x : FeedRow) × ((lock_search_feed 1 false 100 (working table)).0 ≡ ok (some x))
lock_search_feed_finds_example =
    lock_search_feed_finds 0 false 100 table 2 fresh distinct fresh_there refl

feed_caller-locked_example :
    Distinct (ids (feed_caller 3 (feed_two ∷ []) yes_calls no_calls 100 shaky).1.feeds)
    × (row_of 1 (feed_caller 3 (feed_two ∷ []) yes_calls no_calls 100 shaky).1.feeds ≡ some held)
feed_caller-locked_example =
    feed_caller-locked (feed_two ∷ []) 3 yes_calls no_calls 100 shaky 1 held distinct held_there
      refl

feed_pass_registers_example :
    (t : IndexDb) × (feed_pass 1 (feed_two ∷ []) yes_calls false 100 (working table)
      ≡ (ok (some true), t))
    × (row_of 2 t.feeds
        ≡ some (record fresh {
          feedid = some (codes "def");
          expires = some (100 + (500 - 100) / 4);
          state = 3;
          locked = false;
        }))
feed_pass_registers_example =
    feed_pass_registers 0 (feed_two ∷ []) yes_calls feed_two (codes "def") 500 100 table fresh
      distinct fresh_found refl (omega arith) refl refl untaken

-- The feed that was given up, after one more round by another process.
stuck_feed_example :
    row_of 2
      (feed_caller 1
        (feed_two ∷ [])
        yes_calls
        yes_calls
        5000
        (feed_pass 1 (feed_two ∷ []) no_calls false 100 (working table)).1).1.feeds
    ≡ some (record fresh { locked = true; state = 9; expires = some 1300 })
stuck_feed_example =
    stuck_feed 0 100 (feed_two ∷ []) no_calls table fresh
      (feed_caller 1 (feed_two ∷ []) yes_calls yes_calls 5000
        (feed_pass 1 (feed_two ∷ []) no_calls false 100 (working table)).1).1
      (λ i. refl) distinct fresh_found
      (Rounds.round _ _ 1 5000 (feed_two ∷ []) yes_calls yes_calls (Rounds.stop _))
