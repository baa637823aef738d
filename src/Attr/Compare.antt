-- ===== src/Attr/Compare.antt =====
-- `glite_jp_attrval_copy` and the fallback comparison `fb_cmp` of attr.c.
pub mod Order
use glite_jp.Base.{
  ℕ, Bool, true, false, not, ◌&&◌, Option, some, none, Ordering, compare, strcmp, is_eq, ltb, ◌==◌,
  if◌then◌else◌, take, Outcome, ok, err, einval, Bytes,
}
use glite_jp.Types.{AttrVal}

abbrev pub eqb : Bool → Bool → Bool
eqb true b = b
eqb false b = not b

-- A binary value is copied by its size, a string by its length.
unfoldable pub attrval_copy : AttrVal → AttrVal
attrval_copy src = record src { value = if src.binary then take src.size src.value else src.value }

-- the macro `min`
abbrev pub min_of : ℕ → ℕ → ℕ
min_of x y = if ltb y x then y else x

-- the sizes, where `memcmp` found no difference
unfoldable pub by_size : ℕ → ℕ → Ordering → Ordering
by_size n m Ordering.eq = compare n m
by_size n m Ordering.lt = Ordering.lt
by_size n m Ordering.gt = Ordering.gt

-- `memcmp` over the common size, then the sizes
unfoldable pub memcmp_sized : ℕ → ℕ → Bytes → Bytes → Ordering
memcmp_sized n m a b = by_size n m (strcmp (take (min_of n m) a) (take (min_of n m) b))

-- The result is the sign of the number that `fb_cmp` stores.
unfoldable pub fb_cmp : AttrVal → AttrVal → Outcome Ordering
fb_cmp a b =
    if not (eqb a.binary b.binary)
    then err einval
    else if a.binary
    then ok (memcmp_sized a.size b.size a.value b.value)
    else ok (strcmp a.value b.value)
