-- ===== src/Examples/Disks.antt =====
-- Tags of a registered job on the disk, at concrete inputs.
use glite_jp.Base.{
  [], ◌∷◌, ◌++◌, Bytes, codes, same, true, false, some, ok, List, ◌≡◌, ◌≢◌, refl, arith, inr,
}
use glite_jp.Base.Decimal.{print_int}
use glite_jp.Base.{wrap32, subst, sym, Option}
use glite_jp.Tags.{tags_magic, record_body}
use glite_jp.Tags.Word.{be32}
use glite_jp.Tags.File.{tag_records, IsRoomy}
use glite_jp.Files.{contents}
use glite_jp.Files.TagCalls.{append_tags}
use glite_jp.Files.Stored.{HasTags, stored}
use glite_jp.Files.Tagged.{tags_path, append_tags-HasTags}
use glite_jp.Files.Refused.{append_tags_refused}
use glite_jp.Examples.Storage.{storage, a_job, a_key, key_found}
use glite_jp.Examples.Files.{note, blob, both-IsTag}

abbrev the_path : Bytes
the_path = tags_path storage (codes "abcdefghij") a_job

abbrev one_tag : List (Bytes × Bytes)
one_tag = (the_path, be32 tags_magic ++ tag_records (note ∷ [])) ∷ (codes "other", []) ∷ []

one_found : contents the_path one_tag ≡ some (be32 tags_magic ++ tag_records (note ∷ []))
unfolding same print_int wrap32
one_found = refl

one_held : HasTags (contents the_path one_tag) (note ∷ [])
one_held = subst (λ (o : Option Bytes). HasTags o (note ∷ [])) (sym one_found) (inr refl)

other_path : same (codes "other") the_path ≡ false
unfolding same
other_path = refl

three-IsRoomy : IsRoomy (note ∷ note ∷ blob ∷ [])
unfolding record_body print_int
three-IsRoomy = omega arith

append_tags-HasTags_example :
    (e : List (Bytes × Bytes)) × (append_tags true 0 storage
        (codes "https://lb/abcdefghij")
        (note ∷ blob ∷ [])
        (stored (a_job ∷ []) [] [] one_tag)
      ≡ (ok tt, stored (a_job ∷ []) [] [] e))
    × HasTags (contents the_path e) (note ∷ note ∷ blob ∷ [])
    × (contents (codes "other") e ≡ contents (codes "other") one_tag)
append_tags-HasTags_example =
    append_tags-HasTags 0 storage (codes "https://lb/abcdefghij") (codes "abcdefghij") a_job
      (a_job ∷ []) [] [] one_tag (note ∷ []) (note ∷ blob ∷ []) (codes "other") a_key key_found
      one_held both-IsTag three-IsRoomy other_path

append_tags_refused_example :
    ((append_tags false 0 storage
        (codes "https://lb/abcdefghij")
        (note ∷ [])
        (stored (a_job ∷ []) [] [] one_tag)).0
      ≢ ok tt)
    × ((append_tags false 0 storage
          (codes "https://lb/abcdefghij")
          (note ∷ [])
          (stored (a_job ∷ []) [] [] one_tag)).1.disk
        ≡ one_tag)
append_tags_refused_example =
    append_tags_refused 0 storage (codes "https://lb/abcdefghij") (note ∷ [])
      (stored (a_job ∷ []) [] [] one_tag)
