-- ===== src/Feed.antt =====
-- org.glite.jp.primary/src/feed.c: whether an attribute meets one condition of a feed.
pub mod Condition
pub mod Batch
pub mod Matching
pub mod Store
pub mod Columns
pub mod Register
pub mod Updates
use glite_jp.Base.{
  ℕ, [], ◌∷◌, Bytes, same, Bool, true, false, not, ◌&&◌, ◌||◌, Option, some, none, if◌then◌else◌,
  ◌==◌, Outcome, ok, err, fault, ◌>>=◌, Ordering, is_eq, List, pos,
}
use glite_jp.Types.{
  AttrVal, QueryRec, QueryOp, undef, equal, unequal, less, greater, within, exists, orig_any,
}
use glite_jp.Attr.Codec.{Base64}
use glite_jp.Attr.Plugins.{TypePlugin, attrval_cmp}

-- the attribute value that is built from one of the query's values
abbrev pub query_value : QueryRec → ℕ → Bytes → AttrVal
query_value q size v = record {
  name = q.attr;
  value = v;
  binary = q.binary;
  size = size;
  origin = q.origin;
  origin_detail = none;
  timestamp = pos 0;
}

abbrev pub is_less : Ordering → Bool
is_less Ordering.lt = true
is_less Ordering.eq = false
is_less Ordering.gt = false

abbrev pub is_greater : Ordering → Bool
is_greater Ordering.lt = false
is_greater Ordering.eq = false
is_greater Ordering.gt = true

module _ (b : Base64) (ps : List TypePlugin) where
  -- A null value is read, and a comparison that fails is an assertion that fails.
  abbrev pub compare_with : AttrVal → QueryRec → ℕ → Option Bytes → Outcome Ordering
  compare_with a q size none = fault
  compare_with a q size (some v) = elim (attrval_cmp b ps a (query_value q size v)) [
    | ok o ↦ ok o
    | err e ↦ fault
    | fault ↦ fault
  ]

  -- The switch has no case for the other operations, and returns no value for them.
  abbrev pub decide : AttrVal → QueryRec → QueryOp → Ordering → Outcome Bool
  decide a q undef o = fault
  decide a q equal o = ok (is_eq o)
  decide a q unequal o = ok (not (is_eq o))
  decide a q less o = ok (is_less o)
  decide a q greater o = ok (is_greater o)
  decide a q within o = do
    o2 ← compare_with a q q.size2 q.value2
    ok (not (is_less o) && not (is_greater o2))
  decide a q exists o = fault

  unfoldable pub check_qry_item : QueryRec → AttrVal → Outcome Bool
  check_qry_item q a =
      if not (same q.attr a.name)
      then ok false
      else if not (q.origin == orig_any) && not (q.origin == a.origin)
      then ok false
      else compare_with a q q.size q.value >>= λ o. decide a q q.op o
