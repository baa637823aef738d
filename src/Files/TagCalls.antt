-- ===== src/Files/TagCalls.antt =====
-- `glite_jppsbe_append_tags` and `glite_jppsbe_read_tag` of
-- org.glite.jp.primary/src/new_ftp_backend.c.
use glite_jp.Base.{
  ℕ, [], ◌∷◌, Bytes, codes, Bool, Option, some, none, Outcome, ok, err, fault, eio, List,
}
use glite_jp.Base.Act.{Act, after, give}
use glite_jp.Types.{AttrVal}
use glite_jp.Handle.{Handle}
use glite_jp.Tags.{TagResult, tag_append, tag_attr}
use glite_jp.Uploads.{Config}
use glite_jp.Files.{Storage, open_file, close_file}

-- any error is reported as `EIO`
abbrev pub as_eio {ℓ} : {A : Type ℓ} → Outcome A × Storage → Outcome A × Storage
as_eio (ok a, s) = (ok a, s)
as_eio (err e, s) = (err eio, s)
as_eio (fault, s) = (fault, s)

abbrev pub tags_class : Bytes
tags_class = codes "tags"

-- `O_RDWR|O_CREAT`
abbrev pub update_mode : ℕ
update_mode = 66

module _ (plus : Bool) (null_code : ℕ) where
  -- After an error the tags that were added before it are written.
  abbrev pub appended :
      Outcome Handle → Handle → (Handle → Act Storage (Unit {0})) → Act Storage (Unit {0})
  appended (ok g) h go = go g
  appended (err e) h go = λ s. (err eio, (close_file plus null_code h s).1)
  appended fault h go = λ s. (fault, s)

  abbrev pub append_each : List AttrVal → Handle → Act Storage (Unit {0})
  append_each [] h = λ s. as_eio (close_file plus null_code h s)
  append_each (t ∷ ts) h = appended (tag_append h t) h (append_each ts)

  -- A handle that was not set is used.
  abbrev pub append_to : List AttrVal → Option Handle → Act Storage (Unit {0})
  append_to ts none = λ s. (fault, s)
  append_to ts (some h) = append_each ts h

  unfoldable pub append_tags : Config → Bytes → List AttrVal → Act Storage (Unit {0})
  append_tags cfg job attr s =
      after (as_eio (open_file plus null_code cfg job tags_class none update_mode s))
        (append_to attr)

  -- `none` where the fuel ran out
  abbrev pub Read : Type 0
  Read = Option (Outcome (List AttrVal) × Storage)

  abbrev pub tags_read : TagResult → Handle → Storage → Read
  tags_read none h s = none
  tags_read (some (ok (l, th))) h s =
      some (after (as_eio (close_file plus null_code h s)) λ u. give l)
  tags_read (some (err e)) h s = some (err eio, (close_file plus null_code h s).1)
  tags_read (some fault) h s = some (fault, s)

  abbrev pub read_opened : ℕ → Bytes → Outcome (Option Handle) × Storage → Read
  read_opened fuel attr (ok none, s) = some (fault, s)
  read_opened fuel attr (ok (some h), s) =
      tags_read (tag_attr fuel (record { bhandle = h; tags = [] }) attr) h s
  read_opened fuel attr (err e, s) = some (err eio, s)
  read_opened fuel attr (fault, s) = some (fault, s)

  unfoldable pub read_tag : ℕ → Config → Bytes → Bytes → Storage → Read
  read_tag fuel cfg job attr s =
      read_opened fuel attr (open_file plus null_code cfg job tags_class none 0 s)
