-- ===== src/Feed/Condition.antt =====
-- `check_qry_item` decides the condition that the query states.
use glite_jp.Base.{
  ℕ, Bytes, same, same_refl, Bool, true, false, not, ◌&&◌, Option, some, if◌then◌else◌, ◌==◌,
  Outcome, ok, err, fault, ◌>>=◌, Ordering, is_eq, List, strcmp, length, ◌≡◌, ◌≢◌, ◌⊎◌, refl, sym,
  ap, ◌∙◌, arith,
}
use glite_jp.Types.{
  AttrVal, QueryRec, QueryOp, undef, equal, unequal, less, greater, within, exists, orig_any,
}
use glite_jp.Attr.Compare.Order.{IsSized, fb_cmp-strcmp}
use glite_jp.Attr.Codec.{Base64}
use glite_jp.Attr.Plugins.{TypePlugin, get_namespace}
use glite_jp.Attr.Plugins.Lookup.{Unserved, attrval_cmp-Unserved}
use glite_jp.Feed.{query_value, is_less, is_greater, compare_with, decide, check_qry_item}

-- What the operations mean on the bytes of the value, `v` and `w` being those of the query.
abbrev pub meets : QueryOp → Bytes → Bytes → Bytes → Bool
meets equal x v w = is_eq (strcmp x v)
meets unequal x v w = not (is_eq (strcmp x v))
meets less x v w = is_less (strcmp x v)
meets greater x v w = is_greater (strcmp x v)
meets within x v w = not (is_less (strcmp x v)) && not (is_greater (strcmp x w))
meets undef x v w = false
meets exists x v w = false

module _ (b : Base64) (ps : List TypePlugin) (q : QueryRec) (a : AttrVal) where
  compared :
      (size : ℕ) (v : Bytes)
      → q.attr ≡ a.name
      → Unserved (get_namespace a.name) ps
      → IsSized a
      → a.binary ≡ q.binary
      → (q.binary ≡ true → length v ≡ size)
      → compare_with b ps a q size (some v) ≡ ok (strcmp a.value v)
  compared size v hn hu hs hb hl =
      ap (λ (m : Outcome Ordering). elim m [ ok o ↦ ok o | err e ↦ fault | fault ↦ fault ])
        (attrval_cmp-Unserved b ps a (query_value q size v) (sym hn) hu
          ∙ fb_cmp-strcmp a (query_value q size v) hs hl hb)

  -- For an attribute that no plugin serves, with the name and the kind that the query asks for and
  -- an origin that it accepts, and sizes that are right, `check_qry_item` returns, for each of the
  -- five operations that it knows, whether the value meets the condition.
  pub check_qry_item-meets :
      (v w : Bytes)
      → q.attr ≡ a.name
      → (q.origin ≡ orig_any) ⊎ (q.origin ≡ a.origin)
      → Unserved (get_namespace a.name) ps
      → IsSized a
      → a.binary ≡ q.binary
      → q.value ≡ some v
      → q.value2 ≡ some w
      → (q.binary ≡ true → length v ≡ q.size)
      → (q.binary ≡ true → length w ≡ q.size2)
      → q.op ≢ undef
      → q.op ≢ exists
      → check_qry_item b ps q a ≡ ok (meets q.op a.value v w)
  unfolding check_qry_item
  check_qry_item-meets v w hn ho hu hs hb hv hw lv lw nu ne =
      ap (λ (t : Bool). if not t then ok false else tested) same_name
      ∙ ap (λ (t : Bool). if t then ok false else asked) accepted
      ∙ ap (λ (o : Option Bytes). compare_with b ps a q q.size o >>= λ o. decide b ps a q q.op o) hv
      ∙ ap (λ (m : Outcome Ordering). m >>= λ o. decide b ps a q q.op o)
          (compared q.size v hn hu hs hb lv)
      ∙ decided q.op nu ne
    where
      asked : Outcome Bool
      asked = compare_with b ps a q q.size q.value >>= λ o. decide b ps a q q.op o

      tested : Outcome Bool
      tested = if not (q.origin == orig_any) && not (q.origin == a.origin) then ok false else asked

      same_name : same q.attr a.name ≡ true
      same_name = rw hn (same_refl a.name)

      accepted : (not (q.origin == orig_any) && not (q.origin == a.origin)) ≡ false
      accepted = ground arith

      second : compare_with b ps a q q.size2 q.value2 ≡ ok (strcmp a.value w)
      second =
          ap (λ (o : Option Bytes). compare_with b ps a q q.size2 o) hw
          ∙ compared q.size2 w hn hu hs hb lw

      decided :
          (op : QueryOp)
          → op ≢ undef
          → op ≢ exists
          → decide b ps a q op (strcmp a.value v) ≡ ok (meets op a.value v w)
      decided undef h k = absurd (h refl)
      decided equal h k = refl
      decided unequal h k = refl
      decided less h k = refl
      decided greater h k = refl
      decided within h k =
          ap
            (λ (m : Outcome Ordering).
              m >>= λ o2. ok (not (is_less (strcmp a.value v)) && not (is_greater o2)))
            second
      decided exists h k = absurd (k refl)
