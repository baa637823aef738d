-- ===== src/Files/ReadBack.antt =====
-- `glite_jppsbe_read_tag` behind `glite_jppsbe_append_tags`.
use glite_jp.Base.{
  ℕ, ◌+◌, ◌≤◌, [], ◌∷◌, ◌++◌, Bytes, true, false, Option, some, none, Outcome, ok, err, eio, List,
  All, All-append, map, length, ◌≡◌, inl, inr, refl, ap, ◌∙◌,
}
use glite_jp.Types.{AttrVal}
use glite_jp.Handle.{Handle, is_minus}
use glite_jp.Tags.{tags_magic, TagsHandle}
use glite_jp.Tags.Word.{be32}
use glite_jp.Tags.Format.{IsTag, reread_tag}
use glite_jp.Tags.File.{tag_records, IsRoomy}
use glite_jp.Tags.Lookup.{named_tags, tag_answer, tag_attr-IsTagFile}
use glite_jp.Uploads.Tables.{JobRow, FileRow, UserRow, job_of}
use glite_jp.Uploads.{Config, job_key}
use glite_jp.Files.{Storage, contents, new_handle, open_file, close_file}
use glite_jp.Files.TagCalls.{tags_class, append_tags, read_tag, read_opened, tags_read}
use glite_jp.Files.Stored.{HasTags, stored}
use glite_jp.Files.Tagged.{tags_path, fname_lem, append_lem, held_short, held_fits}

-- what a caller of `read_tag` gets: `EIO` where no tag has the name
abbrev pub read_answer : List AttrVal → Outcome (List AttrVal)
read_answer [] = err eio
read_answer (t ∷ ts) = ok (t ∷ ts)

pub written_tags :
    (o : Option Bytes) (us xs : List AttrVal) (x : AttrVal)
    → HasTags o (us ++ x ∷ xs)
    → o ≡ some (be32 tags_magic ++ tag_records (us ++ x ∷ xs))
written_tags none [] xs x h = cc
written_tags none (u ∷ us) xs x h = cc
written_tags (some c) [] xs x (inl (n, z)) = cc
written_tags (some c) (u ∷ us) xs x (inl (n, z)) = cc
written_tags (some c) us xs x (inr h) = ap some h

module _ (null_code : ℕ) (cfg : Config) (job key : Bytes) (j : JobRow) (js : List JobRow)
    (fs : List FileRow) (us : List UserRow) where
  open_read :
      (d : List (Bytes × Bytes)) (c : Bytes)
      → job_key job ≡ ok key
      → job_of key js ≡ some j
      → contents (tags_path cfg key j) d ≡ some c
      → is_minus (length c) ≡ false
      → open_file true null_code cfg job tags_class none 0 (stored js fs us d)
        ≡ (ok (some (new_handle true null_code 0 (tags_path cfg key j) c)), stored js fs us d)
  unfolding open_file
  open_read d c hk ho h n = rw (fname_lem null_code cfg job key j js fs us hk ho, h, n) refl

  answered :
      (l : List AttrVal) (th : TagsHandle) (d : List (Bytes × Bytes)) (c : Bytes)
      → tags_read true null_code
          (some (tag_answer l th))
          (new_handle true null_code 0 (tags_path cfg key j) c)
          (stored js fs us d)
        ≡ some (read_answer l, stored js fs us d)
  unfolding close_file
  answered [] th d c = refl
  answered (t ∷ l) th d c = refl

  pub read_lem :
      (d : List (Bytes × Bytes)) (ts : List AttrVal) (attr : Bytes) (fuel : ℕ)
      → job_key job ≡ ok key
      → job_of key js ≡ some j
      → contents (tags_path cfg key j) d ≡ some (be32 tags_magic ++ tag_records ts)
      → All IsTag ts
      → IsRoomy ts
      → length ts + 2 ≤ fuel
      → read_tag true null_code fuel cfg job attr (stored js fs us d)
        ≡ some (read_answer (named_tags attr ts), stored js fs us d)
  unfolding read_tag
  read_lem d ts attr fuel hk ho h v r le =
      ap (λ (r : Outcome (Option Handle) × Storage). read_opened true null_code fuel attr r)
        (open_read d c hk ho h (held_fits ts c (inr refl) r))
      ∙ ap (λ r. tags_read true null_code r g (stored js fs us d))
          (tag_attr-IsTagFile (record { bhandle = g; tags = [] }) ts attr fuel refl
            (record { opened = refl; whole = (refl, held_short ts c (inr refl) r); held = refl }) v
            le)
      ∙ answered (named_tags attr ts) (record { bhandle = g; tags = map reread_tag ts }) d c
    where
      c : Bytes
      c = be32 tags_magic ++ tag_records ts

      g : Handle
      g = new_handle true null_code 0 (tags_path cfg key j) c

  -- If zlib takes the modes "r+" and "w+", no call of gzopen fails and the database works, the job is
  -- registered, its file of tags, if there is one, is empty or holds the tags `ts`, one tag or more
  -- are added, all of them are such as `IsTag` admits, the file stays shorter than 2 ^ 31 bytes, and there
  -- are two rounds of fuel more than
  -- tags: then adding succeeds, and the next call of `read_tag` gives all the tags, old and new, that
  -- have the name, in their order, or `EIO` if none has it, and changes nothing.
  pub read_tag-append_tags :
      (d : List (Bytes × Bytes)) (ts xs : List AttrVal) (x : AttrVal) (attr : Bytes) (fuel : ℕ)
      → job_key job ≡ ok key
      → job_of key js ≡ some j
      → HasTags (contents (tags_path cfg key j) d) ts
      → All IsTag ts
      → All IsTag (x ∷ xs)
      → IsRoomy (ts ++ x ∷ xs)
      → length (ts ++ x ∷ xs) + 2 ≤ fuel
      → (e : List (Bytes × Bytes)) × (append_tags true null_code cfg job
            (x ∷ xs)
            (stored js fs us d)
          ≡ (ok tt, stored js fs us e))
        × (read_tag true null_code fuel cfg job attr (stored js fs us e)
            ≡ some (read_answer (named_tags attr (ts ++ x ∷ xs)), stored js fs us e))
  read_tag-append_tags d ts xs x attr fuel hk ho w vt vx r le =
      let (e, he, we, oe) =
        append_lem null_code cfg job key j js fs us d ts (x ∷ xs) hk ho w vx r in
      (
        e,
        he,
        read_lem e (ts ++ x ∷ xs) attr fuel hk ho
            (written_tags (contents (tags_path cfg key j) e) ts xs x we)
            (All-append IsTag ts (x ∷ xs) vt vx) r le,
      )
