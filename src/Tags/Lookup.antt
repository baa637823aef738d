-- ===== src/Tags/Lookup.antt =====
-- `tag_attr`: the values of one attribute among the tags of a job.
use glite_jp.Base.{
  ℕ, ◌+◌, ◌≤◌, [], ◌∷◌, List, map, some, Outcome, ok, err, enoent, All, length, Bytes, same,
  if◌then◌else◌, ◌≡◌, refl, ap, ◌∙◌,
}
use glite_jp.Types.{AttrVal}
use glite_jp.Attr.Compare.{attrval_copy}
use glite_jp.Tags.{TagsHandle, found_tags, attr_of, tag_attr, select_tags}
use glite_jp.Tags.Format.{IsTag, reread_tag}
use glite_jp.Tags.File.{IsTagFile, tagsread-IsTagFile}

-- the tags of the job that have this name, as they are read back
abbrev pub named_tags : Bytes → List AttrVal → List AttrVal
named_tags attr [] = []
named_tags attr (t ∷ ts) =
    if same t.name attr
    then attrval_copy (reread_tag t) ∷ named_tags attr ts
    else named_tags attr ts

select_tags_lem :
    (attr : Bytes) (ts : List AttrVal) → select_tags attr (map reread_tag ts) ≡ named_tags attr ts
unfolding select_tags
select_tags_lem attr [] = refl
select_tags_lem attr (t ∷ ts) = rw (select_tags_lem attr ts) refl

-- What the caller gets: the tags with the name, or `ENOENT` where there are none.
abbrev pub tag_answer : List AttrVal → TagsHandle → Outcome (List AttrVal × TagsHandle)
tag_answer [] h = err enoent
tag_answer (t ∷ ts) h = ok (t ∷ ts, h)

-- On a handle that has not read its file of tags that `IsTag` admits yet, with two rounds of fuel
-- more than there are tags, `tag_attr` returns the tags of the file that have
-- the name, in their order, and keeps all tags for the next call; where no tag has the name it
-- returns `ENOENT`.
pub tag_attr-IsTagFile :
    (h : TagsHandle) (ts : List AttrVal) (attr : Bytes) (fuel : ℕ)
    → h.tags ≡ []
    → IsTagFile h.bhandle ts
    → All IsTag ts
    → length ts + 2 ≤ fuel
    → tag_attr fuel h attr
      ≡ some (tag_answer (named_tags attr ts) (record h { tags = map reread_tag ts }))
unfolding tag_attr
tag_attr-IsTagFile h ts attr fuel n d v le =
    ap (λ (l : List AttrVal). attr_of fuel l h attr) n
    ∙ rw (tagsread-IsTagFile h.bhandle ts fuel d v le, select_tags_lem attr ts)
        (answered (named_tags attr ts))
  where
    answered :
        (l : List AttrVal)
        → some (found_tags l (record h { tags = map reread_tag ts }))
          ≡ some (tag_answer l (record h { tags = map reread_tag ts }))
    answered [] = refl
    answered (x ∷ l) = refl
