-- ===== src/Retrieval/Attributes/Written.antt =====
-- `glite_jpps_get_attrs` behind `glite_jppsbe_append_tags`.
use glite_jp.Base.{
  ℕ, ◌+◌, ◌≤◌, [], ◌∷◌, ◌++◌, Bytes, Bool-cases, true, some, none, ok, List, All, All-append, map,
  length, append_assoc, append-nil, ◌≡◌, inl, inr, refl,
}
use glite_jp.Types.{AttrVal}
use glite_jp.Attr.Plugins.{get_namespace}
use glite_jp.Tags.Format.{IsTag}
use glite_jp.Tags.Lookup.{named_tags}
use glite_jp.Tags.File.{IsRoomy}
use glite_jp.Uploads.Tables.{JobRow, FileRow, UserRow, job_of, query}
use glite_jp.Uploads.{Config, job_key}
use glite_jp.Feed.Batch.{is_metadata}
use glite_jp.Files.{Storage, contents, on_db}
use glite_jp.Files.TagCalls.{append_tags, read_tag}
use glite_jp.Files.Stored.{HasTags, stored}
use glite_jp.Files.Tagged.{tags_path, append_lem}
use glite_jp.Files.ReadBack.{read_answer, read_lem, written_tags}
use glite_jp.Retrieval.Metadata.{info_of, get_job_info, system_attr, system_attrs, get_job_metadata}
use glite_jp.Retrieval.Plugins.{Plugin, Slot, Namespace, scan_namespaces}
use glite_jp.Retrieval.Plugins.Scanned.{Unread, NotNamed, AtRest, scan-NotNamed, scan-AtRest}
use glite_jp.Retrieval.Attributes.{
  sort_names, merge_attrvals, in_namespace, each_attr, close_plugins, close_slots, answer,
  get_attrs,
}

abbrev pub system_names : List Bytes → List Bytes
system_names ns = (sort_names ns).0

abbrev pub other_names : List Bytes → List Bytes
other_names ns = (sort_names ns).1

-- the tags that have one of the names
abbrev pub tags_of : List AttrVal → List Bytes → List AttrVal
tags_of ts [] = []
tags_of ts (n ∷ ns) = named_tags n ts ++ tags_of ts ns

abbrev pub AreMetadata : List Bytes → Type 0
AreMetadata ns = All (λ (n : Bytes). is_metadata n ≡ true) ns

system_names-AreMetadata : (ns : List Bytes) → AreMetadata (system_names ns)
system_names-AreMetadata [] = tt
system_names-AreMetadata (n ∷ ns) = elim (Bool-cases (is_metadata n)) [
  | inl e ↦ rw (system_names, e) (e, system_names-AreMetadata ns)
  | inr e ↦ rw (system_names, e) (system_names-AreMetadata ns)
]

system_attrs_lem :
    (info : Bytes × ℕ) (ns : List Bytes)
    → AreMetadata ns
    → system_attrs info ns ≡ ok (map (system_attr info) ns)
system_attrs_lem info [] h = refl
system_attrs_lem info (n ∷ ns) (e, h) = rw (e, system_attrs, system_attrs_lem info ns h) refl

merged :
    (out l : List AttrVal) (s : Storage)
    → merge_attrvals out (read_answer l, s) ≡ (ok (out ++ l), s)
merged out [] s = rw (append-nil out) refl
merged out (a ∷ l) s = refl

metadata_lem :
    (job : Bytes) (js : List JobRow) (fs : List FileRow) (us : List UserRow)
    (d : List (Bytes × Bytes)) (info : Bytes × ℕ) (ns : List Bytes)
    → info_of job js us ≡ some info
    → AreMetadata ns
    → on_db (get_job_metadata job ns) (stored js fs us d)
      ≡ (ok (map (system_attr info) ns), stored js fs us d)
unfolding get_job_metadata get_job_info query
metadata_lem job js fs us d info [] h w = refl
metadata_lem job js fs us d info (n ∷ ns) h (e, w) = rw (e, h, system_attrs_lem info ns w) refl

module _ {P : Type 0} (null_code : ℕ) (cfg : Config) (job : Bytes) where
  unserved :
      (name attr : Bytes) (ns : List (Namespace P)) (out : List AttrVal) (s : Storage)
      → All (NotNamed name) ns
      → in_namespace P true null_code cfg job name ns attr out s ≡ (ok (out, ns), s)
  unserved name attr [] out s h = refl
  unserved name attr (n ∷ ns) out s (e, h) = rw (e, unserved name attr ns out s h) refl

  closed_slots :
      (ts : List (Slot P)) (s : Storage)
      → All (λ (t : Slot P). t.held ≡ none) ts
      → close_slots P true null_code cfg job ts s ≡ s
  closed_slots [] s h = refl
  closed_slots (t ∷ ts) s (e, h) = rw (e, closed_slots ts s h) refl

  closed_plugins :
      (ns : List (Namespace P)) (s : Storage)
      → All AtRest ns
      → close_plugins P true null_code cfg job ns s ≡ s
  closed_plugins [] s h = refl
  closed_plugins (n ∷ ns) s (u, h) = rw (closed_slots n.slots s u, closed_plugins ns s h) refl

  each_lem :
      (fuel : ℕ) (ts : List AttrVal) (attr : List Bytes) (out : List AttrVal)
      (ns : List (Namespace P)) (s : Storage)
      → ((n : Bytes)
          → read_tag true null_code fuel cfg job n s ≡ some (read_answer (named_tags n ts), s))
      → All (λ (n : Bytes). All (NotNamed (get_namespace n)) ns) attr
      → each_attr P true null_code cfg job fuel attr (out, ns) s
        ≡ some (ok (out ++ tags_of ts attr, ns), s)
  each_lem fuel ts [] out ns s h w = rw (append-nil out) refl
  each_lem fuel ts (n ∷ attr) out ns s h (u, w) =
      rw
        (
          h n,
          merged out (named_tags n ts) s,
          unserved (get_namespace n) n ns (out ++ named_tags n ts) s u,
          each_lem fuel ts attr (out ++ named_tags n ts) ns s h w,
          append_assoc out (named_tags n ts) (tags_of ts attr),
        )
        refl

module _ {P : Type 0} (null_code : ℕ) (cfg : Config) (job key : Bytes) (j : JobRow)
    (js : List JobRow) (fs : List FileRow) (us : List UserRow) where
  scanned :
      (ps : List (Plugin P)) (attr : List Bytes)
      → All (λ (n : Bytes). All (Unread (get_namespace n)) ps) attr
      → All (λ (n : Bytes). All (NotNamed (get_namespace n)) (scan_namespaces ps [])) attr
  scanned ps [] h = tt
  scanned ps (n ∷ attr) (u, h) = (scan-NotNamed (get_namespace n) ps [] u tt, scanned ps attr h)

  get_attrs_lem :
      (d : List (Bytes × Bytes)) (ts : List AttrVal) (info : Bytes × ℕ) (ps : List (Plugin P))
      (attr : List Bytes) (fuel : ℕ)
      → info_of job js us ≡ some info
      → ((n : Bytes)
          → read_tag true null_code fuel cfg job n (stored js fs us d)
            ≡ some (read_answer (named_tags n ts), stored js fs us d))
      → All (λ (n : Bytes). All (Unread (get_namespace n)) ps) (other_names attr)
      → get_attrs P true null_code cfg job fuel ps attr (stored js fs us d)
        ≡ some (
          answer (tags_of ts (other_names attr) ++ map (system_attr info) (system_names attr)),
          stored js fs us d,
        )
  unfolding get_attrs
  get_attrs_lem d ts info ps attr fuel hi hr hp =
      rw
        (
          metadata_lem job js fs us d info (system_names attr) hi (system_names-AreMetadata attr),
          each_lem null_code cfg job fuel ts (other_names attr) [] (scan_namespaces ps [])
              (stored js fs us d) hr (scanned ps (other_names attr) hp),
          closed_plugins null_code cfg job (scan_namespaces ps []) (stored js fs us d)
              (scan-AtRest ps [] tt),
        )
        refl

  -- If zlib takes the modes "r+" and "w+", no call of gzopen fails and the database works, the job is
  -- registered and the subject of its owner is known, its file of tags, if there is one, is empty or
  -- holds the tags `ts`, one tag or more are added, all of them are such as `IsTag` admits, the file
  -- stays shorter than 2 ^ 31 bytes, there are two rounds of fuel more than tags, and no file plugin
  -- has the namespace of a name that is asked for and is not metadata: then adding succeeds, and
  -- `get_attrs` gives for each of these names in turn one attribute for each tag, old and new, that
  -- has it, behind them the metadata that is asked for, or `ENOENT` if this is nothing at all, and
  -- changes nothing. A tag that is a string has its value; a binary one has the size 0 and no bytes.
  pub get_attrs-append_tags :
      (d : List (Bytes × Bytes)) (ts xs : List AttrVal) (x : AttrVal) (info : Bytes × ℕ)
      (ps : List (Plugin P)) (attr : List Bytes) (fuel : ℕ)
      → job_key job ≡ ok key
      → job_of key js ≡ some j
      → info_of job js us ≡ some info
      → HasTags (contents (tags_path cfg key j) d) ts
      → All IsTag ts
      → All IsTag (x ∷ xs)
      → IsRoomy (ts ++ x ∷ xs)
      → length (ts ++ x ∷ xs) + 2 ≤ fuel
      → All (λ (n : Bytes). All (Unread (get_namespace n)) ps) (other_names attr)
      → (e : List (Bytes × Bytes)) × (append_tags true null_code cfg job
            (x ∷ xs)
            (stored js fs us d)
          ≡ (ok tt, stored js fs us e))
        × (get_attrs P true null_code cfg job fuel ps attr (stored js fs us e)
            ≡ some (
              answer (
                  tags_of (ts ++ x ∷ xs) (other_names attr)
                  ++ map (system_attr info) (system_names attr)),
              stored js fs us e,
            ))
  get_attrs-append_tags d ts xs x info ps attr fuel hk ho hi w vt vx r le hp =
      let (e, he, we, oe) =
        append_lem null_code cfg job key j js fs us d ts (x ∷ xs) hk ho w vx r in
      (
        e,
        he,
        get_attrs_lem e (ts ++ x ∷ xs) info ps attr fuel hi
            (λ n.
              read_lem null_code cfg job key j js fs us e (ts ++ x ∷ xs) n fuel hk ho
                (written_tags (contents (tags_path cfg key j) e) ts xs x we)
                (All-append IsTag ts (x ∷ xs) vt vx) r le)
            hp,
      )
