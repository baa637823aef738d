-- ===== src/Feed/Matching.antt =====
-- `is_feed_matching` of org.glite.jp.primary/src/feed.c: whether a job, of which some attributes are
-- new, meets the query of a feed.
pub mod Known
use glite_jp.Base.{
  ℕ, suc, zero, ◌+◌, ◌≤◌, ◌<◌, [], ◌∷◌, ◌++◌, Bytes, same, Bool, true, false, not, ◌&&◌, Option,
  some, none, ltb, leb, if◌then◌else◌, Outcome, ok, err, fault, ◌>>=◌, eio, List, All, length,
  length-append, ◌≡◌, ◌≢◌, ◌↔◌, refl, sym, ap, ◌∙◌, subst, arith, Bool-cases, inl, inr,
}
use glite_jp.Types.{AttrVal, QueryRec}
use glite_jp.Attr.Codec.{Base64}
use glite_jp.Attr.Plugins.{TypePlugin}
use glite_jp.Feed.{check_qry_item}

abbrev pub query_max : ℕ
query_max = 100

-- what the new attributes tell of one item
pub data Told : Type 0 where
  met missed unknown : Told

abbrev pub told : Bool → Told
told true = met
told false = missed

-- the attribute that is looked at: the first one with this name
abbrev pub first_named : Bytes → List AttrVal → Option AttrVal
first_named name [] = none
first_named name (a ∷ l) = if same a.name name then some a else first_named name l

-- The names are written at the index of the item, into a buffer for those before that are unknown:
-- behind its end where an item before is met.
abbrev pub asked_names : List (Told × QueryRec) → Outcome (List Bytes)
asked_names [] = ok []
asked_names ((unknown, q) ∷ l) = asked_names l >>= λ names. ok (q.attr ∷ names)
asked_names ((met, q) ∷ l) = asked_names l >>= λ names. elim names [ [] ↦ ok [] | n ∷ ns ↦ fault ]
asked_names ((missed, q) ∷ l) = asked_names l

module _ (b : Base64) (ps : List TypePlugin)
    (get_attrs : Bytes → List Bytes → Outcome (List AttrVal)) where
  abbrev pub tell : QueryRec → Option AttrVal → Outcome Told
  tell q none = ok unknown
  tell q (some a) = check_qry_item b ps q a >>= λ m. ok (told m)

  -- The first item that is missed ends the search: `none`. An item behind the limit is refused by
  -- an assert.
  abbrev pub with_item :
      Told × QueryRec
      → Outcome (Option (List (Told × QueryRec)))
      → Outcome (Option (List (Told × QueryRec)))
  with_item p (ok none) = ok none
  with_item p (ok (some l)) = ok (some (p ∷ l))
  with_item p (err e) = err e
  with_item p fault = fault

  abbrev pub next_told :
      QueryRec
      → Outcome (Option (List (Told × QueryRec)))
      → Told
      → Outcome (Option (List (Told × QueryRec)))
  next_told q r missed = ok none
  next_told q r met = with_item (met, q) r
  next_told q r unknown = with_item (unknown, q) r

  unfoldable pub tell_all :
      ℕ → List QueryRec → List AttrVal → Outcome (Option (List (Told × QueryRec)))
  tell_all room [] attrs = ok (some [])
  tell_all zero (q ∷ qs) attrs = fault
  tell_all (suc room) (q ∷ qs) attrs =
      tell q (first_named q.attr attrs) >>= next_told q (tell_all room qs attrs)

  -- The items are looked at once more, with what was retrieved. The owner is looked for at the
  -- index of the item.
  abbrev pub rechecked : QueryRec → ℕ → List AttrVal → Outcome Bool → Option AttrVal → Outcome Bool
  rechecked q i out rest none = rest
  rechecked q i out rest (some a) = check_qry_item b ps q a >>= λ m.
      if not m then ok false else if ltb i (length out) then rest else fault

  unfoldable pub recheck : ℕ → List (Told × QueryRec) → List AttrVal → Outcome Bool
  recheck i [] out = ok true
  recheck i ((t, q) ∷ l) out = rechecked q i out (recheck (suc i) l out) (first_named q.attr out)

  -- Where nothing can be retrieved, the number of attributes is not set.
  abbrev pub retrieved : List (Told × QueryRec) → List Bytes → Outcome (List AttrVal) → Outcome Bool
  retrieved l names (ok out) = if ltb (length out) (length names) then err eio else recheck 0 l out
  retrieved l names (err e) = fault
  retrieved l names fault = fault

  abbrev pub ask_storage : Bytes → List (Told × QueryRec) → List Bytes → Outcome Bool
  ask_storage job l [] = ok true
  ask_storage job l (n ∷ ns) = retrieved l (n ∷ ns) (get_attrs job (n ∷ ns))

  abbrev pub completed : Bytes → Option (List (Told × QueryRec)) → Outcome Bool
  completed job none = ok false
  completed job (some l) = asked_names l >>= ask_storage job l

  -- 0 is `true`, and -1 is `false`. A feed without a query takes every job.
  unfoldable pub is_feed_matching : Option (List QueryRec) → Bytes → List AttrVal → Outcome Bool
  is_feed_matching none job attrs = ok true
  is_feed_matching (some qs) job attrs = tell_all query_max qs attrs >>= completed job
