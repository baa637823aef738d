-- ===== src/Attr/Plugins.antt =====
-- The choice of a type plugin in attr.c, and `glite_jpps_get_namespace` of utils.c. The
-- errors of the context, which these functions clear and on which a refused comparison stacks one,
-- are left out.
pub mod Lookup
use glite_jp.Base.{
  ℕ, [], ◌∷◌, ◌++◌, Bytes, codes, same, if◌then◌else◌, ◌==◌, List, Option, some, none, Outcome, ok,
  err, einval, true, false, Ordering, not,
}
use glite_jp.Base.Decimal.{print_nat}
use glite_jp.Types.{AttrVal}
use glite_jp.Attr.Escape.{colon}
use glite_jp.Attr.Compare.{fb_cmp}
use glite_jp.Attr.Codec.{Base64, fb_to_db_full, fb_to_db_index, fb_from_db}

-- `strrchr(s, ':')`: what stands before the last colon
before_last_colon : Bytes → Option Bytes
before_last_colon [] = none
before_last_colon (c ∷ s) = elim (before_last_colon s) [
  | some p ↦ some (c ∷ p)
  | none ↦ if c == colon then some [] else none
]

-- A name without a colon has the empty namespace.
unfoldable pub get_namespace : Bytes → Bytes
unfolding before_last_colon
get_namespace name = elim (before_last_colon name) [ some p ↦ p | none ↦ [] ]

-- glite_jp_tplug_data_t: methods that may be null pointers. What a loaded plugin computes is its
-- own; the context pointer of a plugin is part of its functions.
pub record TypePlugin : Type 0 where
  pub namespace : Bytes
  pub cmp : Option (AttrVal → AttrVal → Outcome Ordering)
  pub to_db_full : Option (AttrVal → Option Bytes)
  pub to_db_index : Option (AttrVal → ℕ → Bytes)
  pub from_db : Option (Bytes → AttrVal → Outcome AttrVal)
  pub db_type_full : Option (Bytes → Bytes)
  pub db_type_index : Option (Bytes → ℕ → Bytes)

unfoldable pub fb_type_full : Bytes → Bytes
fb_type_full attr = codes "mediumblob"

-- `varchar(%d)`
unfoldable pub fb_type_index : Bytes → ℕ → Bytes
fb_type_index attr len = codes "varchar(" ++ print_nat len ++ codes ")"

module _ (b : Base64) where
  unfoldable pub fallback_plugin : TypePlugin
  fallback_plugin = record {
    namespace = [];
    cmp = some fb_cmp;
    to_db_full = some (fb_to_db_full b);
    to_db_index = some fb_to_db_index;
    from_db = some (fb_from_db b);
    db_type_full = some fb_type_full;
    db_type_index = some fb_type_index;
  }

  -- the loop over `ctx->type_plugins`
  unfoldable pub find_plugin : List TypePlugin → Bytes → TypePlugin
  find_plugin [] ns = fallback_plugin
  find_plugin (p ∷ ps) ns = if same ns p.namespace then p else find_plugin ps ns

  -- A null array of plugins is the empty list.
  unfoldable pub get_plugin : List TypePlugin → Bytes → TypePlugin
  get_plugin ps name = find_plugin ps (get_namespace name)

  -- Values of different attributes are not compared.
  unfoldable pub attrval_cmp : List TypePlugin → AttrVal → AttrVal → Outcome Ordering
  attrval_cmp ps x y =
      if not (same x.name y.name)
      then err einval
      else elim (get_plugin ps x.name).cmp [ some f ↦ f x y | none ↦ fb_cmp x y ]

  unfoldable pub attrval_to_db_full : List TypePlugin → AttrVal → Option Bytes
  attrval_to_db_full ps a = elim (get_plugin ps a.name).to_db_full [
    | some f ↦ f a
    | none ↦ fb_to_db_full b a
  ]

  unfoldable pub attrval_to_db_index : List TypePlugin → AttrVal → ℕ → Bytes
  attrval_to_db_index ps a len = elim (get_plugin ps a.name).to_db_index [
    | some f ↦ f a len
    | none ↦ fb_to_db_index a len
  ]

  unfoldable pub attrval_from_db : List TypePlugin → Bytes → AttrVal → Outcome AttrVal
  attrval_from_db ps str a = elim (get_plugin ps a.name).from_db [
    | some f ↦ f str a
    | none ↦ fb_from_db b str a
  ]

  unfoldable pub attrval_db_type_full : List TypePlugin → Bytes → Bytes
  attrval_db_type_full ps name = elim (get_plugin ps name).db_type_full [
    | some f ↦ f name
    | none ↦ fb_type_full name
  ]

  unfoldable pub attrval_db_type_index : List TypePlugin → Bytes → ℕ → Bytes
  attrval_db_type_index ps name len = elim (get_plugin ps name).db_type_index [
    | some f ↦ f name len
    | none ↦ fb_type_index name len
  ]
