-- ===== src/Examples/Registers.antt =====
-- The registration and the purge of feeds at concrete inputs.
use glite_jp.Base.{
  ◌≤◌, ℕ, ◌+◌, [], ◌∷◌, Bytes, codes, same, strcmp, Bool-cases, inl, inr, true, false, ◌==◌,
  if◌then◌else◌, none, ok, All, ◌≡◌, ◌≢◌, refl, ap, ◌∙◌, arith,
}
use glite_jp.Uploads.Tables.{any}
use glite_jp.Feed.Store.{is_mark, SavedFeed, FeedTables, is_feed, purge_feeds}
use glite_jp.Feed.Store.Purge.Removed.{working, purge_feeds_removes}
use glite_jp.Feed.Store.Purge.{Stored, purge_feeds-Kept}
use glite_jp.Feed.Columns.{Ulm, JpFeed, feeds_of, read_feeds}
use glite_jp.Feed.Columns.Letters.{IsStorable}
use glite_jp.Feed.Columns.RoundTrip.{reread_feed}
use glite_jp.Feed.Register.{register_feed, register_feed_deferred, feed_ttl}
use glite_jp.Feed.Register.ReadBack.{tables, read_feeds-register_feed}
use glite_jp.Examples.Batches.{of_user}

-- an escape of line ends by a backslash
abbrev slashed : Bytes → Bytes
slashed [] = []
slashed (c ∷ s) =
    let t = slashed s in if c == 10 then 92 ∷ 110 ∷ t else if c == 92 then 92 ∷ 92 ∷ t else c ∷ t

abbrev unslashed : Bytes → Bytes
unslashed [] = []
unslashed (c ∷ []) = c ∷ []
unslashed (c ∷ d ∷ s) =
    let t = unslashed s in
    let k = unslashed (d ∷ s) in if c == 92 then (if d == 110 then 10 else d) ∷ t else c ∷ k

slashed_line : (s : Bytes) → All (λ c. c ≢ 10) (slashed s)
slashed_line [] = tt
slashed_line (c ∷ s) = ground (arith, slashed_line s)

slashed_some : (s : Bytes) → s ≢ [] → slashed s ≢ []
slashed_some [] h = h
slashed_some (c ∷ s) h = λ e. absurd (ground arith)

unslashed_plain : (c : ℕ) (t : Bytes) → c ≢ 92 → unslashed (c ∷ t) ≡ c ∷ unslashed t
unslashed_plain c [] h = refl
unslashed_plain c (d ∷ t) h = ground arith

unslashed-slashed : (s : Bytes) → unslashed (slashed s) ≡ s
unslashed-slashed [] = refl
unslashed-slashed (c ∷ s) = elim (Bool-cases (c == 10)) [
  | inl e ↦ rw (e, unslashed-slashed s) (ap (λ (x : ℕ). x ∷ s) (ten c e))
  | inr e ↦ elim (Bool-cases (c == 92)) [
    | inl k ↦ rw (e, k, unslashed-slashed s) (ap (λ (x : ℕ). x ∷ s) (slash c k))
    | inr k ↦
        rw (e, k)
          (unslashed_plain c (slashed s) (λ q. absurd (ground arith))
            ∙ ap (λ (x : Bytes). c ∷ x) (unslashed-slashed s))
  ]
]
  where
    ten : (x : ℕ) → (x == 10) ≡ true → 10 ≡ x
    ten x e = ground arith

    slash : (x : ℕ) → (x == 92) ≡ true → 92 ≡ x
    slash x e = ground arith

abbrev slashes : Ulm
slashes = record {
  escape = slashed;
  unescape = unslashed;
  of_null = codes "(nil)";
  one_line = slashed_line;
  not_empty = slashed_some;
  unescape_escape = unslashed-slashed;
}

abbrev new_feed : JpFeed
new_feed =
    register_feed 1000 (codes "id1") (codes "https://is") (codes "queue" ∷ []) (of_user ∷ []) none

abbrev old_feed : SavedFeed
old_feed = record {
  feedid = codes "id0";
  destination = codes "https://is";
  expires = 900;
  cols = codes "queue";
  query = codes "a\n=\nb";
}

user-IsStorable : IsStorable of_user
user-IsStorable = record {
  text = refl;
  named = λ e. absurd (ground arith);
  valued = λ e. absurd (ground arith);
}

id_free : any (is_feed (codes "id1")) (old_feed ∷ []) ≡ false
unfolding same strcmp
id_free = refl

none_read : feeds_of slashes 1100 (old_feed ∷ []) [] ≡ ok []
unfolding feeds_of
none_read = refl

read_feeds-register_feed_example :
    (s : FeedTables) × (register_feed_deferred slashes 1001 new_feed (tables (old_feed ∷ []) [])
      ≡ (ok tt, s))
    × (read_feeds slashes 1100 [] s
        ≡ (ok (reread_feed slashes (record new_feed { expires = 1001 + feed_ttl }) ∷ []), s))
read_feeds-register_feed_example =
    read_feeds-register_feed slashes new_feed (codes "queue") [] of_user [] 1001 1100
      (old_feed ∷ []) [] [] [] refl refl ((λ e. absurd (ground arith)), tt) (user-IsStorable, tt)
      id_free none_read (omega arith)

abbrev live_feed : SavedFeed
live_feed = record old_feed { feedid = codes "id1"; expires = 2000 }

-- a feed that is past, and a mark of another feed
abbrev marked_tables : FeedTables
marked_tables = record {
  feeds = old_feed ∷ live_feed ∷ [];
  fed_jobs = record { feedid = codes "id1"; jobid = codes "k" } ∷ [];
  outages = false ∷ true ∷ [];
}

purge_feeds-Kept_example :
    Stored live_feed (purge_feeds 1000 marked_tables).1.feeds
    × (any (is_mark (codes "id1") (codes "k")) (purge_feeds 1000 marked_tables).1.fed_jobs
        ≡ any (is_mark (codes "id1") (codes "k")) marked_tables.fed_jobs)
unfolding same strcmp
purge_feeds-Kept_example =
    purge_feeds-Kept 1000 live_feed (codes "id1") (codes "k") (omega arith) marked_tables
      (inr (inl refl)) ((λ e. absurd (ground arith)), ((λ e. omega arith), tt))

purge_feeds_removes_example :
    (t : FeedTables) × (purge_feeds 1000 (
        working
          (old_feed ∷ live_feed ∷ [])
          (record { feedid = codes "id0"; jobid = codes "k" } ∷ marked_tables.fed_jobs))
      ≡ (ok tt, t))
    × All (λ (g : SavedFeed). 1000 ≤ g.expires) t.feeds
    × (any (is_mark (codes "id0") (codes "k")) t.fed_jobs ≡ false)
purge_feeds_removes_example =
    purge_feeds_removes 1000 old_feed (codes "k") (old_feed ∷ live_feed ∷ []) _ (inl refl)
      (omega arith)
