-- ===== src/Feed/Register/ReadBack.antt =====
-- A feed that was registered is read by a server that starts later.
use glite_jp.Base.{
  ℕ, ◌+◌, ◌<◌, [], ◌∷◌, ◌++◌, Bytes, same_refl, Bool, true, false, ltb, lt→ltb, some, ok, List, All,
  if◌then◌else◌, parts_of, ◌>>=◌, ◌≡◌, ◌≢◌, refl, ap, arith,
}
use glite_jp.Types.{QueryRec}
use glite_jp.Uploads.Tables.{any}
use glite_jp.Feed.Store.{
  SavedFeed, FedJob, FeedTables, is_feed, until, insert_feed, refresh_feed, exec_sql, select,
}
use glite_jp.Feed.Columns.{Ulm, JpFeed, saved, store_feed, jpfeed_of, feeds_of, read_feeds}
use glite_jp.Feed.Columns.Letters.{IsStorable}
use glite_jp.Feed.Columns.RoundTrip.{query_text, query_lines_whole, reread_feed, jpfeed_of-saved}
use glite_jp.Feed.Register.{feed_ttl, register_feed_deferred}

-- tables of a database that works
abbrev pub tables : List SavedFeed → List FedJob → FeedTables
tables fs ms = record { feeds = fs; fed_jobs = ms; outages = [] }

until_last :
    (id : Bytes) (t : ℕ) (fs : List SavedFeed) (r : SavedFeed)
    → any (is_feed id) fs ≡ false
    → is_feed id r ≡ true
    → until id t (fs ++ r ∷ []) ≡ fs ++ record r { expires = t } ∷ []
until_last id t [] r h e = rw e refl
until_last id t (f ∷ fs) r h e = ground (arith, until_last id t fs r)

module _ (u : Ulm) where
  feeds_of-append :
      (now : ℕ) (fs : List SavedFeed) (r : SavedFeed) (g : JpFeed) (held l : List JpFeed)
      → feeds_of u now fs held ≡ ok l
      → ltb now r.expires ≡ true
      → jpfeed_of u r ≡ ok g
      → feeds_of u now (fs ++ r ∷ []) held ≡ ok (g ∷ l)
  unfolding feeds_of
  feeds_of-append now [] r g held l h e k =
      let q : held ≡ l = (cc) in rw (e, k) (ap (λ (x : List JpFeed). ok (g ∷ x)) q)
  feeds_of-append now (f ∷ fs) r g held l h e k =
      one_more (ltb now f.expires) h λ x hx. feeds_of-append now fs r g x l hx e k
    where
      one_more :
          (c : Bool)
          → (if c
              then (jpfeed_of u f >>= λ x. feeds_of u now fs (x ∷ held))
              else feeds_of u now fs held)
            ≡ ok l
          → ((x : List JpFeed)
              → feeds_of u now fs x ≡ ok l
              → feeds_of u now (fs ++ r ∷ []) x ≡ ok (g ∷ l))
          → (if c
              then (jpfeed_of u f >>= λ x. feeds_of u now (fs ++ r ∷ []) (x ∷ held))
              else feeds_of u now (fs ++ r ∷ []) held)
            ≡ ok (g ∷ l)
      one_more false hh ih = ih held hh
      one_more true hh ih =
          let (x, hx, he) = parts_of (jpfeed_of u f) hh in rw he (ih (x ∷ held) hx)

  -- On a database that works, for a feed whose identifier no stored feed has, whose attributes, one
  -- or more, have names, and whose conditions, one or more, are such as `IsStorable` admits, while
  -- the stored feeds can be read: the registration succeeds, and a server that reads the feeds
  -- before the time of its end has the feed, with its identifier, destination and attributes, and
  -- the conditions as `reread` says, in front of the others.
  pub read_feeds-register_feed :
      (f : JpFeed) (a : Bytes) (ls : List Bytes) (q : QueryRec) (qs : List QueryRec) (now later : ℕ)
      (fs : List SavedFeed) (ms : List FedJob) (held l : List JpFeed)
      → f.attrs ≡ a ∷ ls
      → f.qry ≡ q ∷ qs
      → All (λ n. n ≢ []) (a ∷ ls)
      → All IsStorable (q ∷ qs)
      → any (is_feed f.id) fs ≡ false
      → feeds_of u later fs held ≡ ok l
      → later < now + feed_ttl
      → (s : FeedTables) × (register_feed_deferred u now f (tables fs ms) ≡ (ok tt, s))
        × (read_feeds u later held s
            ≡ (ok (reread_feed u (record f { expires = now + feed_ttl }) ∷ l), s))
  unfolding register_feed_deferred store_feed insert_feed refresh_feed exec_sql read_feeds select
  read_feeds-register_feed f a ls q qs now later fs ms held l ea eq ha hq n h lt =
      let r = record (saved u f (some (query_text u q qs))) { expires = now + feed_ttl } in
      let g = record f { expires = now + feed_ttl } in
      let back : jpfeed_of u r ≡ ok (reread_feed u g) = jpfeed_of-saved u g a ls q qs ea eq ha hq in
      (
        tables (fs ++ r ∷ []) ms,
        rw
            (
              eq,
              query_lines_whole u q qs hq,
              n,
              until_last f.id (now + feed_ttl) fs (saved u f (some (query_text u q qs))) n
                  (same_refl f.id),
            )
            refl,
        rw
            (feeds_of-append later fs r (reread_feed u g) held l h
              (lt→ltb later (now + feed_ttl) lt) back)
            refl,
      )
