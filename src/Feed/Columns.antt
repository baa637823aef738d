-- ===== src/Feed/Columns.antt =====
-- How org.glite.jp.primary/src/new_ftp_backend.c stores the attributes and the query of a feed as
-- text: glite_jppsbe_store_feed and glite_jppsbe_read_feeds.
pub mod Lines
pub mod Letters
pub mod RoundTrip
use glite_jp.Base.{
  ℕ, [], ◌∷◌, ◌++◌, Bytes, Bool, true, false, Option, some, none, ◌==◌, ltb, if◌then◌else◌, Outcome,
  ok, err, fault, List, All, map, ◌≡◌, ◌≢◌,
}
use glite_jp.Base
use glite_jp.Base.Act.{Act, after, ◌>>=◌, ◌>>◌, give, from}
use glite_jp.Types.{
  QueryRec, QueryOp, undef, equal, unequal, less, greater, within, exists, orig_any,
}
use glite_jp.Feed.Store.{SavedFeed, FeedTables, insert_feed, select}

-- EscapeULM and UnescapeULM of the logging library: what is escaped has no line end, is not empty
-- where the text is not, and can be read back. `of_null` is what is printed for a null pointer.
pub record Ulm : Type 0 where
  pub escape : Bytes → Bytes
  pub unescape : Bytes → Bytes
  pub of_null : Bytes
  pub one_line : (s : Bytes) → All (λ c. c ≢ 10) (escape s)
  pub not_empty : (s : Bytes) → s ≢ [] → escape s ≢ []
  pub unescape_escape : (s : Bytes) → unescape (escape s) ≡ s

-- struct jpfeed, as far as it is stored; null arrays are empty
pub record JpFeed : Type 0 where
  pub id : Bytes
  pub destination : Bytes
  pub expires : ℕ
  pub attrs : List Bytes
  pub qry : List QueryRec

-- one more line behind those before
abbrev pub line_behind : Option Bytes → Bytes → Bytes
line_behind none l = l
line_behind (some a) l = a ++ 10 ∷ l

abbrev pub op_letter : QueryOp → Outcome ℕ
op_letter equal = ok b'='
op_letter unequal = ok b'!'
op_letter less = ok b'<'
op_letter greater = ok b'>'
op_letter exists = ok b'E'
op_letter within = fault
op_letter undef = fault

-- `*p`, which no token that strtok returns leaves empty
abbrev pub letter_op : Bytes → Outcome QueryOp
letter_op [] = fault
letter_op (c ∷ s) =
    if c == b'='
    then ok equal
    else if c == b'<'
    then ok less
    else if c == b'>'
    then ok greater
    else if c == b'!'
    then ok unequal
    else if c == b'E'
    then ok exists
    else fault

-- the line at the start, and those behind it
unfoldable pub lines_of : Bytes → Bytes × List Bytes
lines_of [] = ([], [])
lines_of (c ∷ s) = let r = lines_of s in if c == 10 then ([], r.0 ∷ r.1) else (c ∷ r.0, r.1)

abbrev pub not_blank : List Bytes → List Bytes
not_blank [] = []
not_blank ([] ∷ l) = not_blank l
not_blank ((c ∷ s) ∷ l) = (c ∷ s) ∷ not_blank l

-- strtok with the line end as the only separator: empty lines are passed over
unfoldable pub tokens : Bytes → List Bytes
tokens s = let r = lines_of s in not_blank (r.0 ∷ r.1)

module _ (u : Ulm) where
  abbrev pub attr_lines : Option Bytes → List Bytes → Option Bytes
  attr_lines acc [] = acc
  attr_lines acc (a ∷ l) = attr_lines (some (line_behind acc (u.escape a))) l

  abbrev pub value_line : QueryOp → Option Bytes → Bytes
  value_line exists v = b'E' ∷ []
  value_line op none = u.of_null
  value_line op (some v) = u.escape v

  abbrev pub query_lines : Option Bytes → List QueryRec → Outcome (Option Bytes)
  query_lines acc [] = ok acc
  query_lines acc (q ∷ qs) =
      if q.binary
      then fault
      else Base.◌>>=◌ (op_letter q.op) λ c.
        query_lines
          (some (line_behind acc (u.escape q.attr ++ 10 ∷ c ∷ 10 ∷ value_line q.op q.value))) qs

  abbrev pub printed_text : Option Bytes → Bytes
  printed_text none = u.of_null
  printed_text (some s) = s

  abbrev pub saved : JpFeed → Option Bytes → SavedFeed
  saved f q = record {
    feedid = f.id;
    destination = f.destination;
    expires = f.expires;
    cols = printed_text (attr_lines none f.attrs);
    query = printed_text q;
  }

  unfoldable pub store_feed : JpFeed → Act FeedTables (Unit {0})
  store_feed f = from (query_lines none f.qry) >>= λ q. insert_feed (saved f q)

  abbrev pub reread_value : QueryOp → Option Bytes → Option Bytes
  reread_value exists v = none
  reread_value op none = none
  reread_value op (some v) = some (u.escape v)

  abbrev pub record_of : Bytes → QueryOp → Option Bytes → QueryRec
  record_of a op v = record {
    attr = u.escape a;
    op = op;
    value = reread_value op v;
    value2 = none;
    binary = false;
    size = 0;
    size2 = 0;
    origin = orig_any;
  }

  abbrev pub before_rest : QueryRec → Outcome (List QueryRec) → Outcome (List QueryRec)
  before_rest q r = Base.◌>>=◌ r λ l. ok (q ∷ l)

  -- Three tokens are a record. Attributes and values are escaped once more.
  unfoldable pub parse_query : List Bytes → Outcome (List QueryRec)
  parse_query [] = ok []
  parse_query (a ∷ []) = fault
  parse_query (a ∷ o ∷ []) = Base.◌>>=◌ (letter_op o) λ op. ok (record_of a op none ∷ [])
  parse_query (a ∷ o ∷ v ∷ l) =
      Base.◌>>=◌ (letter_op o) λ op. before_rest (record_of a op (some v)) (parse_query l)

  abbrev pub jpfeed_of : SavedFeed → Outcome JpFeed
  jpfeed_of r = Base.◌>>=◌ (parse_query (tokens r.query)) λ q. ok (record {
    id = r.feedid;
    destination = r.destination;
    expires = r.expires;
    attrs = map u.unescape (tokens r.cols);
    qry = q;
  })

  -- `expires > now`; each feed is put before those that were there
  unfoldable pub feeds_of : ℕ → List SavedFeed → List JpFeed → Outcome (List JpFeed)
  feeds_of now [] acc = ok acc
  feeds_of now (r ∷ rs) acc =
      if ltb now r.expires
      then Base.◌>>=◌ (jpfeed_of r) (λ f. feeds_of now rs (f ∷ acc))
      else feeds_of now rs acc

  -- the feeds of the context, with those of the table
  unfoldable pub read_feeds : ℕ → List JpFeed → Act FeedTables (List JpFeed)
  read_feeds now held = select (λ s. s.feeds) >>= λ rows. from (feeds_of now rows held)
