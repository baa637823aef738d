-- ===== src/Retrieval/Plugins.antt =====
-- The plugins that read attributes from files, in org.glite.jp.primary/src/attrs.c: scan_namespaces
-- and process_files.
pub mod Scanned
use glite_jp.Base.{
  ℕ, [], ◌∷◌, ◌++◌, Bytes, same, Bool, Option, some, none, if◌then◌else◌, Outcome, ok, err, fault,
  List, map,
}
use glite_jp.Base.Act.{Act, after, give}
use glite_jp.Types.{AttrVal, orig_file}
use glite_jp.Handle.{Handle}
use glite_jp.Uploads.{Config}
use glite_jp.Files.{Storage, on_db, open_file, close_file}
use glite_jp.Retrieval.Metadata.{NameRef, unnamed, dangling, get_names}

-- glite_jpps_fplug_data_t. `P` is what a plugin keeps for an open file. An error of the plugin's own
-- is `none`.
pub record Plugin (P : Type 0) : Type 0 where
  pub namespaces : List Bytes
  pub served : List (Bytes × Bytes)
  pub open_op : Handle → Bytes → Option P
  pub attr_op : P → Bytes → Option (List AttrVal)

-- a plugin of a namespace, with the class and the handles of the file that it holds open
pub record Slot (P : Type 0) : Type 0 where
  pub plugin : Plugin P
  pub held : Option (Bytes × (P × Handle))

pub record Namespace (P : Type 0) : Type 0 where
  pub space : Bytes
  pub slots : List (Slot P)

abbrev pub detailed : Bytes → Option Bytes → Bytes
detailed uri none = uri ++ b' ' ∷ []
detailed uri (some d) = d

abbrev pub of_file : Bytes → AttrVal → AttrVal
of_file uri a = record a { origin = orig_file; origin_detail = some (detailed uri a.origin_detail) }

-- errors of a plugin are not looked at
abbrev pub plugin_values : Bytes → Option (List AttrVal) → List AttrVal
plugin_values uri none = []
plugin_values uri (some l) = map (of_file uri) l

module _ {P : Type 0} where
  abbrev pub new_slot : Plugin P → Slot P
  new_slot p = record { plugin = p; held = none }

  abbrev pub added_to : Bytes → Plugin P → List (Namespace P) → List (Namespace P)
  added_to name p [] = record { space = name; slots = new_slot p ∷ [] } ∷ []
  added_to name p (n ∷ ns) =
      let l = added_to name p ns in
      if same name n.space
      then record { space = name; slots = n.slots ++ new_slot p ∷ [] } ∷ ns
      else n ∷ l

  abbrev pub with_names : List Bytes → Plugin P → List (Namespace P) → List (Namespace P)
  with_names [] p ns = ns
  with_names (n ∷ names) p ns = with_names names p (added_to n p ns)

  unfoldable pub scan_namespaces : List (Plugin P) → List (Namespace P) → List (Namespace P)
  scan_namespaces [] ns = ns
  scan_namespaces (p ∷ ps) ns = scan_namespaces ps (with_names p.namespaces p ns)

module _ (P : Type 0) (plus : Bool) (null_code : ℕ) (cfg : Config) (job : Bytes) where
  -- the attributes so far, and the slot
  abbrev pub Got : Type 0
  Got = List AttrVal × Slot P

  -- The file that the slot holds is closed. The result is not looked at.
  abbrev pub closed : Option (Bytes × (P × Handle)) → Storage → Storage
  closed none s = s
  closed (some (class, (p, h))) s = (close_file plus null_code h s).1

  abbrev pub plugin_opened : Bytes → Bytes → Bytes → Got → Handle → Option P → Got
  plugin_opened class uri attr (out, t) h none = (out, record t { held = none })
  plugin_opened class uri attr (out, t) h (some p) =
      (out ++ plugin_values uri (t.plugin.attr_op p attr), record t { held = some (class, (p, h)) })

  abbrev pub file_opened :
      Bytes → Bytes → Bytes → Got → Outcome (Option Handle) × Storage → Outcome Got × Storage
  file_opened class uri attr (out, t) (ok (some h), s) =
      (ok (plugin_opened class uri attr (out, t) h (t.plugin.open_op h uri)), s)
  file_opened class uri attr (out, t) (ok none, s) = (fault, s)
  file_opened class uri attr (out, t) (err e, s) = (ok (out, record t { held = none }), s)
  file_opened class uri attr g (fault, s) = (fault, s)

  abbrev pub opened_anew : Bytes → Bytes → Bytes → Got → Act Storage Got
  opened_anew class uri attr (out, t) s =
      file_opened class uri attr (out, t)
        (open_file plus null_code cfg job class none 0 (closed t.held s))

  -- A file of the class that is held open is read again.
  abbrev pub read_held :
      Bytes → Bytes → Bytes → Got → Option (Bytes × (P × Handle)) → Act Storage Got
  read_held class uri attr (out, t) none = opened_anew class uri attr (out, t)
  read_held class uri attr (out, t) (some (c, (p, h))) =
      if same c class
      then give (out ++ plugin_values uri (t.plugin.attr_op p attr), t)
      else opened_anew class uri attr (out, t)

  -- A name that dangles is read.
  abbrev pub each_file : Bytes → Bytes → Bytes → List NameRef → Got → Act Storage Got
  each_file class uri attr [] g = give g
  each_file class uri attr (dangling ∷ l) g = λ s. (fault, s)
  each_file class uri attr (unnamed ∷ l) (out, t) =
      λ s. after (read_held class uri attr (out, t) t.held s) λ g. each_file class uri attr l g

  -- Where the names cannot be had there is no file.
  abbrev pub with_refs :
      Bytes → Bytes → Bytes → Got → Outcome (List NameRef) × Storage → Outcome Got × Storage
  with_refs class uri attr g (ok l, s) = each_file class uri attr l g s
  with_refs class uri attr g (err e, s) = (ok g, s)
  with_refs class uri attr g (fault, s) = (fault, s)

  unfoldable pub process_files : Bytes → Bytes → Bytes → Got → Act Storage Got
  process_files class uri attr g s = with_refs class uri attr g (on_db (get_names job class) s)

  -- the classes of a plugin, with their types
  abbrev pub each_class : List (Bytes × Bytes) → Bytes → Got → Act Storage Got
  each_class [] attr g = give g
  each_class ((class, uri) ∷ l) attr g =
      λ s. after (process_files class uri attr g s) λ h. each_class l attr h
