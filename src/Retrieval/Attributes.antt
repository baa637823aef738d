-- ===== src/Retrieval/Attributes.antt =====
-- `glite_jpps_get_attrs` and `merge_attrvals` of org.glite.jp.primary/src/attrs.c.
pub mod Written
use glite_jp.Base.{
  ℕ, [], ◌∷◌, ◌++◌, Bytes, same, Bool, Option, some, none, if◌then◌else◌, Outcome, ok, err, fault,
  enoent, List,
}
use glite_jp.Base.Act.{Act, after, give, ◌>>=◌}
use glite_jp.Types.{AttrVal}
use glite_jp.Attr.Plugins.{get_namespace}
use glite_jp.Uploads.{Config}
use glite_jp.Feed.Batch.{is_metadata}
use glite_jp.Files.{Storage, on_db}
use glite_jp.Files.TagCalls.{read_tag}
use glite_jp.Retrieval.Metadata.{get_job_metadata}
use glite_jp.Retrieval.Plugins.{Plugin, Slot, Namespace, scan_namespaces, each_class, closed}

-- the names of metadata, and the others
abbrev pub sort_names : List Bytes → List Bytes × List Bytes
sort_names [] = ([], [])
sort_names (n ∷ ns) =
    let r = sort_names ns in if is_metadata n then (n ∷ r.0, r.1) else (r.0, n ∷ r.1)

-- the tags before what was found; errors are not looked at
abbrev pub merge_attrvals :
    List AttrVal → Outcome (List AttrVal) × Storage → Outcome (List AttrVal) × Storage
merge_attrvals out (ok l, s) = (ok (out ++ l), s)
merge_attrvals out (err e, s) = (ok out, s)
merge_attrvals out (fault, s) = (fault, s)

-- no attributes at all are an error
abbrev pub answer : List AttrVal → Outcome (List AttrVal)
answer [] = err enoent
answer (a ∷ l) = ok (a ∷ l)

module _ (P : Type 0) (plus : Bool) (null_code : ℕ) (cfg : Config) (job : Bytes) where
  -- what was found so far, and the namespaces
  abbrev pub Found : Type 0
  Found = List AttrVal × List (Namespace P)

  -- `none` where the fuel of `read_tag` ran out
  abbrev pub Search : Type 0
  Search = Option (Outcome Found × Storage)

  abbrev pub each_slot :
      List (Slot P) → Bytes → List AttrVal → Act Storage (List AttrVal × List (Slot P))
  each_slot [] attr out = give (out, [])
  each_slot (t ∷ ts) attr out =
      each_class P plus null_code cfg job t.plugin.served attr (out, t) >>= λ g.
      each_slot ts attr g.0 >>= λ r. give (r.0, g.1 ∷ r.1)

  -- the plugins of the first namespace that has the name
  abbrev pub in_namespace : Bytes → List (Namespace P) → Bytes → List AttrVal → Act Storage Found
  in_namespace name [] attr out = give (out, [])
  in_namespace name (n ∷ ns) attr out =
      let others = in_namespace name ns attr out in
      if same name n.space
      then each_slot n.slots attr out >>= (λ r. give (r.0, record n { slots = r.1 } ∷ ns))
      else others >>= (λ r. give (r.0, n ∷ r.1))

  abbrev pub go_on : Outcome Found × Storage → (Found → Storage → Search) → Search
  go_on (ok g, s) k = k g s
  go_on (err e, s) k = some (err e, s)
  go_on (fault, s) k = some (fault, s)

  abbrev pub with_tags :
      Option (Outcome (List AttrVal) × Storage)
      → Bytes
      → Found
      → (Found → Storage → Search)
      → Search
  with_tags none attr g k = none
  with_tags (some r) attr (out, ns) k =
      go_on (after (merge_attrvals out r) λ l. in_namespace (get_namespace attr) ns attr l) k

  abbrev pub each_attr : ℕ → List Bytes → Found → Storage → Search
  each_attr fuel [] g s = some (ok g, s)
  each_attr fuel (a ∷ l) g s =
      with_tags (read_tag plus null_code fuel cfg job a s) a g (each_attr fuel l)

  abbrev pub close_slots : List (Slot P) → Storage → Storage
  close_slots [] s = s
  close_slots (t ∷ ts) s = close_slots ts (closed P plus null_code cfg job t.held s)

  abbrev pub close_plugins : List (Namespace P) → Storage → Storage
  close_plugins [] s = s
  close_plugins (n ∷ ns) s = close_plugins ns (close_slots n.slots s)

  abbrev pub whole_answer : List AttrVal → Search → Option (Outcome (List AttrVal) × Storage)
  whole_answer meta none = none
  whole_answer meta (some (ok (out, ns), s)) = some (answer (out ++ meta), close_plugins ns s)
  whole_answer meta (some (err e, s)) = some (err e, s)
  whole_answer meta (some (fault, s)) = some (fault, s)

  abbrev pub with_metadata :
      Outcome (List AttrVal) × Storage
      → (Storage → Search)
      → Option (Outcome (List AttrVal) × Storage)
  with_metadata (ok meta, s) k = whole_answer meta (k s)
  with_metadata (err e, s) k = some (err e, s)
  with_metadata (fault, s) k = some (fault, s)

  -- The namespaces that are known from an earlier call have no open file, and are those that are
  -- found again here.
  unfoldable pub get_attrs :
      ℕ → List (Plugin P) → List Bytes → Storage → Option (Outcome (List AttrVal) × Storage)
  get_attrs fuel ps attr s =
      let r = sort_names attr in
      with_metadata (on_db (get_job_metadata job r.0) s)
        (each_attr fuel r.1 ([], scan_namespaces ps []))
