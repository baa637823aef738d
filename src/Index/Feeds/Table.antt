-- ===== src/Index/Feeds/Table.antt =====
-- The table of feeds of the index server, and the statements that db_ops.c executes on it.
use glite_jp.Base.{
  ℕ, suc, [], ◌∷◌, Bytes, same, Bool, true, false, not, ◌&&◌, ◌||◌, Option, some, none, ltb, ◌==◌,
  if◌then◌else◌, Outcome, ok, err, List,
}
use glite_jp.Base.Act.{Act}

-- The column `locked` holds 0 or 1. Times are seconds.
pub record FeedRow : Type 0 where
  pub uniqueid : ℕ
  pub feedid : Option Bytes
  pub state : ℕ
  pub locked : Bool
  pub source : Bytes
  pub expires : Option ℕ

-- `outages` tells for the statements to come whether the database fails; behind its end it works.
pub record IndexDb : Type 0 where
  pub feeds : List FeedRow
  pub outages : List Bool

abbrev pub Run {ℓ} : Type ℓ → Type ℓ
Run A = Act IndexDb A

abbrev pub failing : List Bool → Bool
failing [] = false
failing (b ∷ l) = b

abbrev pub remaining : List Bool → List Bool
remaining [] = []
remaining (b ∷ l) = l

abbrev pub enolck : ℕ
enolck = 37

abbrev pub state_error : ℕ
state_error = 8

abbrev pub has_feedid : FeedRow → Bool
has_feedid r = elim r.feedid [ some id ↦ true | none ↦ false ]

-- `expires <= now`, which holds for no null time
abbrev pub is_due : ℕ → Option ℕ → Bool
is_due now none = false
is_due now (some t) = not (ltb now t)

-- the `where` clauses of the two searches; the flag asks for a feed to refresh
abbrev pub is_candidate : Bool → ℕ → FeedRow → Bool
is_candidate true now r = not r.locked && (has_feedid r && is_due now r.expires)
is_candidate false now r =
    not r.locked && (not (has_feedid r) && (ltb r.state state_error || is_due now r.expires))

unfoldable pub first : (FeedRow → Bool) → List FeedRow → Option FeedRow
first p [] = none
first p (r ∷ rs) = if p r then some r else first p rs

abbrev pub enoent_of : Option FeedRow → Outcome FeedRow
enoent_of none = err 2
enoent_of (some r) = ok r

-- The search; a row that cannot be fetched is a failure of it.
unfoldable pub select_feed : Bool → ℕ → Run FeedRow
unfolding first
select_feed initialized now s =
    if failing s.outages then (err enolck, record s { outages = remaining s.outages }) else (
      enoent_of (first (is_candidate initialized now) s.feeds),
      record s { outages = remaining s.outages },
    )

abbrev pub update_row : (FeedRow → Bool) → (FeedRow → FeedRow) → FeedRow → FeedRow
update_row p f r = if p r then f r else r

unfoldable pub update_rows : (FeedRow → Bool) → (FeedRow → FeedRow) → List FeedRow → List FeedRow
update_rows p f [] = []
update_rows p f (r ∷ rs) = update_row p f r ∷ update_rows p f rs

unfoldable pub matching : (FeedRow → Bool) → List FeedRow → ℕ
matching p [] = 0
matching p (r ∷ rs) = if p r then suc (matching p rs) else matching p rs

-- An update, with the number of the rows that it finds; `none` is a failure, the -1 of the library.
-- A database that counts only the rows that it changes differs in the codes of init_feed and of
-- unlock_feed alone, which no caller reads.
unfoldable pub update : (FeedRow → Bool) → (FeedRow → FeedRow) → Run (Option ℕ)
unfolding update_rows matching
update p f s =
    if failing s.outages then (ok none, record s { outages = remaining s.outages }) else (
      ok (some (matching p s.feeds)),
      record { feeds = update_rows p f s.feeds; outages = remaining s.outages },
    )

-- `where uniqueid=id`
abbrev pub has_id : ℕ → FeedRow → Bool
has_id id r = id == r.uniqueid

-- `update feeds set locked=1 where locked=0 and uniqueid=id`
abbrev pub lock_row : ℕ → Run (Option ℕ)
lock_row id = update (λ r. not r.locked && has_id id r) λ r. record r { locked = true }

-- `update feeds set locked=0 where uniqueid=id`
abbrev pub unlock_row : ℕ → Run (Option ℕ)
unlock_row id = update (has_id id) λ r. record r { locked = false }

abbrev pub is_taken : ℕ → Bytes → FeedRow → Bool
is_taken id feedid r = not (has_id id r) && elim r.feedid [ some f ↦ same feedid f | none ↦ false ]

-- A duplicate key is a failure.
abbrev pub unless_taken : Option FeedRow → Run (Option ℕ) → Run (Option ℕ)
unless_taken none m = m
unless_taken (some r) m = λ s. (ok none, record s { outages = remaining s.outages })

-- `update feeds set feedid=..., expires=..., state=... where uniqueid=id`; the key `feedid` is unique
unfoldable pub init_row : ℕ → Bytes → ℕ → ℕ → Run (Option ℕ)
unfolding first
init_row id feedid expires state s =
    unless_taken (first (is_taken id feedid) s.feeds)
      (update (has_id id)
        λ r. record r { feedid = some feedid; expires = some expires; state = state })
      s

-- `update feeds set state=..., expires=... where uniqueid=id`
abbrev pub reconnect_row : ℕ → ℕ → ℕ → Run (Option ℕ)
reconnect_row id time state =
    update (has_id id) λ r. record r { state = state; expires = some time }

-- `update feeds set feedid=NULL, state=0, expires=... where uniqueid=id`
abbrev pub destroy_row : ℕ → ℕ → Run (Option ℕ)
destroy_row id time =
    update (has_id id) λ r. record r { feedid = none; state = 0; expires = some time }
