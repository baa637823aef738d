-- ===== src/Attr/Plugins/Lookup.antt =====
-- Which plugin serves an attribute, and what comes back through the dispatching functions.
use glite_jp.Base.{
  [], ◌∷◌, ◌++◌, Bytes, same_iff, List, some, none, ok, err, not, einval, if◌then◌else◌, ap, Bool,
  ◌≡◌, ◌≢◌, refl, ◌∙◌, sym, subst, arith, All,
}
use glite_jp.Types.{AttrVal}
use glite_jp.Attr.Escape.{colon}
use glite_jp.Attr.Compare.Order.{IsSized}
use glite_jp.Attr.Codec.{Base64, fb_to_db_full, fb_from_db}
use glite_jp.Attr.Compare.{fb_cmp}
use glite_jp.Attr.Codec.RoundTrip.{reread, fb_from_db-to_db}
use glite_jp.Attr.Plugins.{
  before_last_colon, get_namespace, TypePlugin, fallback_plugin, find_plugin, get_plugin,
  attrval_to_db_full, attrval_from_db, attrval_cmp,
}

no_colon : (s : Bytes) → All (λ c. c ≢ colon) s → before_last_colon s ≡ none
unfolding before_last_colon
no_colon [] h = refl
no_colon (c ∷ s) (hc, hs) = ground (arith, no_colon s hs)

before_last :
    (ns l : Bytes) → All (λ c. c ≢ colon) l → before_last_colon (ns ++ colon ∷ l) ≡ some ns
unfolding before_last_colon
before_last [] l h = ground (arith, no_colon l h)
before_last (c ∷ ns) l h = ground (arith, before_last ns l h)

-- For a local name without a colon, the namespace of a name is what stands before its last colon, and is empty if it has none.
pub get_namespace_lem :
    (ns l : Bytes)
    → All (λ c. c ≢ colon) l
    → (get_namespace (ns ++ colon ∷ l) ≡ ns) × (get_namespace l ≡ [])
unfolding get_namespace
get_namespace_lem ns l h =
    (rw (before_last ns l h, get_namespace), rw (no_colon l h, get_namespace))

-- no plugin of the list serves the namespace
abbrev pub Unserved : Bytes → List TypePlugin → Type 0
Unserved ns = All (λ (p : TypePlugin). ns ≢ p.namespace)

find_skip :
    (b : Base64) (ns : Bytes) (ps qs : List TypePlugin)
    → Unserved ns ps
    → find_plugin b (ps ++ qs) ns ≡ find_plugin b qs ns
unfolding find_plugin
find_skip b ns [] qs h = refl
find_skip b ns (p ∷ ps) qs (hp, hs) =
    ground (arith, same_iff ns p.namespace, find_skip b ns ps qs hs)

find-Unserved :
    (b : Base64) (ns : Bytes) (ps : List TypePlugin)
    → Unserved ns ps
    → find_plugin b ps ns ≡ fallback_plugin b
unfolding find_plugin
find-Unserved b ns [] h = refl
find-Unserved b ns (p ∷ ps) (hp, hs) =
    ground (arith, same_iff ns p.namespace, find-Unserved b ns ps hs)

-- For a local name without a colon, the first plugin of a list with the attribute's namespace serves
-- it, and the fallback plugin does where no plugin of a list has it.
pub get_plugin_first :
    (b : Base64) (ns l : Bytes) (ps qs : List TypePlugin) (p : TypePlugin)
    → All (λ c. c ≢ colon) l
    → Unserved ns ps
    → p.namespace ≡ ns
    → (get_plugin b (ps ++ p ∷ qs) (ns ++ colon ∷ l) ≡ p)
      × (get_plugin b ps (ns ++ colon ∷ l) ≡ fallback_plugin b)
unfolding get_plugin
get_plugin_first b ns l ps qs p hl hs e = rw ((get_namespace_lem ns l hl).0) (
  find_skip b ns ps (p ∷ qs) hs ∙ (unfold find_plugin in rw ((same_iff ns p.namespace).1 (sym e))),
  find-Unserved b ns ps hs,
)

plugin-Unserved :
    (b : Base64) (ps : List TypePlugin) (name : Bytes)
    → Unserved (get_namespace name) ps
    → get_plugin b ps name ≡ fallback_plugin b
unfolding get_plugin
plugin-Unserved b ps name h = find-Unserved b (get_namespace name) ps h

to_db-Unserved :
    (b : Base64) (ps : List TypePlugin) (a : AttrVal)
    → Unserved (get_namespace a.name) ps
    → attrval_to_db_full b ps a ≡ fb_to_db_full b a
unfolding attrval_to_db_full
to_db-Unserved b ps a h =
    rw (plugin-Unserved b ps a.name h, attrval_to_db_full) (unfold fallback_plugin in refl)

from_db-Unserved :
    (b : Base64) (ps : List TypePlugin) (s : Bytes) (x : AttrVal)
    → Unserved (get_namespace x.name) ps
    → attrval_from_db b ps s x ≡ fb_from_db b s x
unfolding attrval_from_db
from_db-Unserved b ps s x h =
    rw (plugin-Unserved b ps x.name h, attrval_from_db) (unfold fallback_plugin in refl)

-- Where no plugin serves the attribute's namespace and the size of the value is right, what the
-- dispatching functions write to the
-- database comes back from it through them.
pub attrval_from_db-to_db :
    (b : Base64) (ps : List TypePlugin) (a x : AttrVal) (db : Bytes)
    → Unserved (get_namespace a.name) ps
    → x.name ≡ a.name
    → IsSized a
    → attrval_to_db_full b ps a ≡ some db
    → attrval_from_db b ps db x ≡ ok (reread a x)
attrval_from_db-to_db b ps a x db hu hn hs h =
    from_db-Unserved b ps db x (subst (λ (n : Bytes). Unserved (get_namespace n) ps) (sym hn) hu)
    ∙ fb_from_db-to_db b a x db hs (sym (to_db-Unserved b ps a hu) ∙ h)

-- Where no plugin serves the namespace, values of one attribute are compared by `fb_cmp`.
pub attrval_cmp-Unserved :
    (b : Base64) (ps : List TypePlugin) (x y : AttrVal)
    → x.name ≡ y.name
    → Unserved (get_namespace x.name) ps
    → attrval_cmp b ps x y ≡ fb_cmp x y
unfolding attrval_cmp
attrval_cmp-Unserved b ps x y e h =
    ap
      (λ (t : Bool).
        if not t
        then err einval
        else elim (get_plugin b ps x.name).cmp [ some f ↦ f x y | none ↦ fb_cmp x y ])
      ((same_iff x.name y.name).1 e)
    ∙ ap (λ (p : TypePlugin). elim p.cmp [ some f ↦ f x y | none ↦ fb_cmp x y ])
        (plugin-Unserved b ps x.name h)
    ∙ (unfold fallback_plugin in refl)
