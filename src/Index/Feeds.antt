-- ===== src/Index/Feeds.antt =====
-- org.glite.jp.index/src/db_ops.c, soap_ps_calls.c and bones_server.c: how a process of the index
-- server takes a feed from the table, asks its primary storage, and puts it back.
pub mod Table
pub mod Frame
pub mod Locking
pub mod Locked
pub mod Progress
pub mod Rounds
pub mod Stuck
use glite_jp.Base.{
  ℕ, zero, suc, ◌+◌, ◌-◌, ◌*◌, ◌/◌, ◌%◌, [], ◌∷◌, Bytes, Bool, true, false, Option, some, none, ltb,
  ◌==◌, if◌then◌else◌, Outcome, ok, err, fault, enoent, einval, eio, List,
}
use glite_jp.Base.Act.{after, ◌>>=◌, ◌>>◌, give, refuse}
use glite_jp.Index.Feeds.Table.{
  FeedRow, IndexDb, Run, state_error, enolck, select_feed, lock_row, unlock_row, init_row,
  reconnect_row, destroy_row,
}

-- `while (ret != 1)`; a failed statement is tried again too
abbrev pub locked_one : FeedRow → Option ℕ → Run (Option FeedRow) → Run (Option FeedRow)
locked_one r none again = again
locked_one r (some n) again = λ s. if n == 1 then (ok (some r), s) else again s

abbrev pub search_round : Bool → ℕ → Run (Option FeedRow) → Run (Option FeedRow)
search_round initialized now again =
    select_feed initialized now >>= λ r. lock_row r.uniqueid >>= λ n. locked_one r n again

-- The row is as it was selected; `none` means that the fuel ran out.
unfoldable pub lock_search_feed : ℕ → Bool → ℕ → Run (Option FeedRow)
lock_search_feed zero initialized now = give none
lock_search_feed (suc fuel) initialized now =
    search_round initialized now (lock_search_feed fuel initialized now)

-- now + (time - now) / 2, where the division of a negative number is towards zero
abbrev pub half_way : ℕ → ℕ → ℕ
half_way now time = if ltb time now then now - (now - time) / 2 else now + (time - now) / 2

abbrev pub code_of : Option ℕ → ℕ
code_of none = enolck
code_of (some n) = if n == 1 then 0 else enolck

unfoldable pub init_feed : ℕ → ℕ → Bytes → ℕ → ℕ → Run ℕ
init_feed now id feedid expires state =
    init_row id feedid (half_way now expires) state >>= λ n. give (code_of n)

unfoldable pub unlock_feed : ℕ → Run ℕ
unlock_feed id = unlock_row id >>= λ n. give (code_of n)

-- Only a failed statement is an error; that no row was found is not.
abbrev pub failed_of : Option ℕ → ℕ
failed_of none = eio
failed_of (some n) = 0

unfoldable pub try_reconnect_feed : ℕ → ℕ → ℕ → Run ℕ
try_reconnect_feed id time state = reconnect_row id time state >>= λ n. give (failed_of n)

unfoldable pub destroy_try_reconnect_feed : ℕ → ℕ → Run ℕ
destroy_try_reconnect_feed id time = destroy_row id time >>= λ n. give (failed_of n)

-- What an attempt to call the primary storage meets.
pub data Answer : Type 0 where
  no_credentials refused : Answer
  accepted : Bytes → ℕ → Answer

-- A configured feed; `converts` tells whether its conditions can be written as SOAP structures.
pub record ConfFeed : Type 0 where
  pub uniqueid : ℕ
  pub history : Bool
  pub continuous : Bool
  pub converts : Bool

abbrev pub find_dest_index : List ConfFeed → ℕ → Option ConfFeed
find_dest_index [] id = none
find_dest_index (f ∷ fs) id = if f.uniqueid == id then some f else find_dest_index fs id

abbrev pub feed_status : ConfFeed → ℕ
feed_status f = (if f.history then 1 else 0) + (if f.continuous then 2 else 0)

-- The response is stored with half of the time that is left, which init_feed halves again.
unfoldable pub store_answer : ℕ → ℕ → Bytes → ℕ → ℕ → Run ℕ
store_answer now id feedid expires status = do
  n ← init_feed now id feedid (half_way now expires) status
  m ← unlock_feed id
  give 0

abbrev pub call_index : ConfFeed → Answer → ℕ → ℕ → Run ℕ
call_index f no_credentials now id = give einval
call_index f refused now id = unlock_feed id >>= λ n. give eio
call_index f (accepted feedid expires) now id = store_answer now id feedid expires (feed_status f)

abbrev pub has_credentials : Answer → Bool
has_credentials no_credentials = false
has_credentials refused = true
has_credentials (accepted feedid expires) = true

abbrev pub found_index : Option ConfFeed → Answer → ℕ → ℕ → Run ℕ
found_index none a now id = give einval
found_index (some f) a now id = λ s. if f.converts then call_index f a now id s else (ok einval, s)

-- The clock stands still during one call.
abbrev pub my_feed_index : List ConfFeed → Answer → ℕ → ℕ → Run ℕ
my_feed_index conf a now id = λ s.
    if has_credentials a then found_index (find_dest_index conf id) a now id s else (ok einval, s)

abbrev pub has_error : ℕ → Bool
has_error status = status / 8 % 2 == 1

-- `status & ~GLITE_JP_IS_STATE_ERROR` and `status | GLITE_JP_IS_STATE_ERROR`
abbrev pub without_error : ℕ → ℕ
without_error status = if has_error status then status - state_error else status

abbrev pub with_error : ℕ → ℕ
with_error status = if has_error status then status else status + state_error

-- The feed keeps its identifier. A null one is copied by soap_strdup, which is taken as the empty text.
abbrev pub feedid_text : Option Bytes → Bytes
feedid_text none = []
feedid_text (some f) = f

abbrev pub my_feed_refresh : Answer → ℕ → FeedRow → Run ℕ
my_feed_refresh no_credentials now r = give einval
my_feed_refresh refused now r = unlock_feed r.uniqueid >>= λ n. give eio
my_feed_refresh (accepted feedid expires) now r =
    store_answer now r.uniqueid (feedid_text r.feedid) expires (without_error r.state)

-- `for (i = 0; i < 10; i++)`, until an attempt returns 0
abbrev pub until_done : ℕ → Run Bool → Run Bool
until_done zero again = give true
until_done (suc e) again = again

unfoldable pub attempts : ℕ → ℕ → (ℕ → Run ℕ) → Run Bool
attempts zero i call = give false
attempts (suc n) i call = call i >>= λ ret. until_done ret (attempts n (suc i) call)

abbrev pub reconnect_time : ℕ
reconnect_time = 60 * 20

-- What is done after ten failures: a feed that was not refreshed is tried once more, and then
-- registered anew.
abbrev pub give_up : Bool → ℕ → FeedRow → Run ℕ
give_up false now r = try_reconnect_feed r.uniqueid (now + reconnect_time) (with_error r.state)
give_up true now r = λ s.
    if has_error r.state
    then destroy_try_reconnect_feed r.uniqueid (now - 1) s
    else try_reconnect_feed r.uniqueid (now + reconnect_time / 2) (with_error r.state) s

abbrev pub unless_done : Bool → Run ℕ → Run ℕ
unless_done true m = give 0
unless_done false m = m

-- `calls` tells what each attempt meets.
abbrev pub call_storage : List ConfFeed → (ℕ → Answer) → Bool → ℕ → FeedRow → ℕ → Run ℕ
call_storage conf calls false now r i = my_feed_index conf (calls i) now r.uniqueid
call_storage conf calls true now r i = my_feed_refresh (calls i) now r

unfoldable pub handle_feed : List ConfFeed → (ℕ → Answer) → Bool → ℕ → FeedRow → Run ℕ
handle_feed conf calls initialized now r =
    attempts 10 0 (call_storage conf calls initialized now r) >>= λ done.
    unless_done done (give_up initialized now r)

-- the switch on the result of lock_search_feed
abbrev pub handle_found :
    Outcome (Option FeedRow) × IndexDb → (FeedRow → Run ℕ) → Outcome (Option Bool) × IndexDb
handle_found (ok none, s) f = (ok none, s)
handle_found (ok (some r), s) f = after (f r s) λ n. give (some true)
handle_found (err e, s) f = if e == enoent then (ok (some false), s) else (err e, s)
handle_found (fault, s) f = (fault, s)

unfoldable pub feed_pass : ℕ → List ConfFeed → (ℕ → Answer) → Bool → ℕ → Run (Option Bool)
feed_pass fuel conf calls initialized now s =
    handle_found (lock_search_feed fuel initialized now s) (handle_feed conf calls initialized now)

abbrev pub either : Option Bool → Option Bool → Option Bool
either none b = none
either (some a) none = none
either (some true) (some b) = some true
either (some false) (some b) = some b

-- The two searches; whether a feed was handled, or the error of a failed search. Each may take a
-- round more than there are outages.
unfoldable pub feed_caller : ℕ → List ConfFeed → (ℕ → Answer) → (ℕ → Answer) → ℕ → Run (Option Bool)
feed_caller fuel conf calls calls' now = do
  a ← feed_pass fuel conf calls false now
  b ← feed_pass fuel conf calls' true now
  give (either a b)
