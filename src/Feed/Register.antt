-- ===== src/Feed/Register.antt =====
-- The registration of feeds in org.glite.jp.primary/src/feed.c: the feed is put into a queue of calls
-- that are run when the client has its answer.
pub mod ReadBack
use glite_jp.Base.{ℕ, ◌+◌, Bytes, Option, some, none, Outcome, ok, err, fault, List}
use glite_jp.Base.Act.{Act}
use glite_jp.Types.{QueryRec}
use glite_jp.Feed.Store.{FeedTables, refresh_feed}
use glite_jp.Feed.Columns.{Ulm, JpFeed, store_feed}

-- seconds
abbrev pub feed_ttl : ℕ
feed_ttl = 360

abbrev pub make_jpfeed : Bytes → List Bytes → List QueryRec → Bytes → ℕ → JpFeed
make_jpfeed destination attrs qry id expires = record {
  id = id;
  destination = destination;
  expires = expires;
  attrs = attrs;
  qry = qry;
}

abbrev pub id_or : Option Bytes → Bytes → Bytes
id_or none generated = generated
id_or (some id) generated = id

-- The feed that is put into the queue: its identifier and the time of its end are the answer.
-- `generated` is what generate_feedid makes of the host and a random number.
abbrev pub register_feed : ℕ → Bytes → Bytes → List Bytes → List QueryRec → Option Bytes → JpFeed
register_feed now generated destination attrs qry id =
    make_jpfeed destination attrs qry (id_or id generated) (now + feed_ttl)

-- An error is printed, or not looked at.
abbrev pub registered :
    Bytes → ℕ → Outcome (Unit {0}) × FeedTables → Outcome (Unit {0}) × FeedTables
registered id now (ok x, s) = (ok tt, (refresh_feed id (now + feed_ttl) s).1)
registered id now (err e, s) = (ok tt, s)
registered id now (fault, s) = (fault, s)

unfoldable pub register_feed_deferred : Ulm → ℕ → JpFeed → Act FeedTables (Unit {0})
register_feed_deferred u now f s = registered f.id now (store_feed u f s)

-- glite_jpps_refresh_feed: the new end is the answer, whether it was stored or not
unfoldable pub renew_feed : ℕ → Bytes → Act FeedTables ℕ
renew_feed now id s = (ok (now + feed_ttl), (refresh_feed id (now + feed_ttl) s).1)
