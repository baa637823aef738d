-- ===== src/Tags/Appending.antt =====
-- `glite_jppsbe_append_tag`: a tag is added at the end of the file of tags.
use glite_jp.Base.{
  err, fault, true, parts_of, Option, ◌+◌, ◌%◌, [], ◌∷◌, ◌++◌, List, map, Outcome, ok, All, length,
  length-append, append_assoc, ◌≡◌, ◌≢◌, refl, sym, ap, ◌∙◌, arith, lt→ltb, same, some, ◌>>=◌, ◌^◌,
  Bytes, drop, subst, append-nil,
}
use glite_jp.Types.{AttrVal}
use glite_jp.Handle.{Handle, pread, pwrite, append, with_bytes, written_at}
use glite_jp.Handle.Laws.{
  IsOpen, IsWhole, pread_part, pread_end, bytes_behind, with_bytes-IsWhole, append_lem,
  pwrite-IsWhole,
}
use glite_jp.Tags.{tags_magic, record_body, append_record, check_magic, tag_append, tagsread}
use glite_jp.Tags.Word.{be32}
use glite_jp.Tags.Format.{IsTag, reread_tag}
use glite_jp.Tags.File.{
  IsTagFile, tag_record, tag_records, tag_records-append, tagsread-IsTagFile, IsRoomy,
  IsRoomy-before,
}

append_record_lem :
    (h : Handle) (t : AttrVal)
    → IsWhole h
    → IsTag t
    → append_record h t ≡ ok (with_bytes h (tag_record t))
unfolding append_record
append_record_lem h t w v =
    rw (lt→ltb (length (record_body t)) (2 ^ 32) v.short) (append_lem h (tag_record t) w)

abbrev file_bytes : List AttrVal → Bytes
file_bytes ts = be32 tags_magic ++ tag_records ts

longer_file :
    (ts : List AttrVal) (t : AttrVal)
    → length (file_bytes ts) + length (tag_record t) ≡ 4 + length (tag_records (ts ++ t ∷ []))
longer_file ts t = omega (
  arith,
  ap (λ (l : Bytes). length l) (tag_records-append ts t),
  length-append (tag_records ts) (tag_record t),
)

-- the file with the magic number, before a record is added
added :
    (h : Handle) (ts : List AttrVal) (t : AttrVal)
    → IsTagFile h ts
    → IsRoomy (ts ++ t ∷ [])
    → IsTagFile (with_bytes h (tag_record t)) (ts ++ t ∷ [])
added h ts t d k = record {
  opened = d.opened;
  whole =
      with_bytes-IsWhole h (tag_record t) d.whole
        (omega (arith, ap (λ (l : Bytes). length l) d.held, longer_file ts t));
  held =
      bytes_behind h (tag_record t) d.whole
      ∙ ap (λ (s : Bytes). s ++ tag_record t) d.held
      ∙ append_assoc (be32 tags_magic) (tag_records ts) (tag_record t)
      ∙ ap (λ (s : Bytes). be32 tags_magic ++ s) (sym (tag_records-append ts t));
}

magic_accepted : (h : Handle) → check_magic h (be32 tags_magic) ≡ ok h
unfolding same
magic_accepted h = refl

abbrev started : Handle → Handle
started h = written_at h (be32 tags_magic) 0

-- Adding a tag that `IsTag` admits to a file that holds tags succeeds, and the file then holds it behind the others.
pub tag_append-IsTagFile :
    (h : Handle) (ts : List AttrVal) (t : AttrVal)
    → IsTagFile h ts
    → IsTag t
    → IsRoomy (ts ++ t ∷ [])
    → (g : Handle) × (tag_append h t ≡ ok g) × IsTagFile g (ts ++ t ∷ [])
unfolding tag_append
tag_append-IsTagFile h ts t d v k = (with_bytes h (tag_record t), result, added h ts t d k)
  where
    result : tag_append h t ≡ ok (with_bytes h (tag_record t))
    result =
        ap (λ (m : Outcome Bytes). m >>= (λ b. check_magic h b >>= λ g. append_record g t))
          (pread_part h [] (be32 tags_magic) (tag_records ts) d.opened d.whole d.held)
        ∙ ap (λ (m : Outcome Handle). m >>= λ g. append_record g t) (magic_accepted h)
        ∙ append_record_lem h t d.whole v

-- An empty file that can be written to.
pub record IsNewFile (h : Handle) : Type 0 where
  pub opened : IsOpen h
  pub whole : IsWhole h
  pub empty : h.filedata ≡ []
  pub writable : h.filemode % 4 ≢ 0

started_lem : (h : Handle) → IsNewFile h → pwrite h (be32 tags_magic) 0 ≡ ok (started h)
unfolding pwrite
started_lem h d = ground (arith, d.opened, d.writable, d.whole.0, d.whole.1)

started-IsTagFile : (h : Handle) → IsNewFile h → IsTagFile (started h) []
started-IsTagFile h d = record {
  opened = d.opened;
  whole = pwrite-IsWhole h (started h) (be32 tags_magic) 0 d.whole (omega arith) (started_lem h d);
  held = ap (λ (s : Bytes). be32 tags_magic ++ drop 4 s) d.empty;
}

-- Adding a tag to an empty file that can be written to succeeds, and the file then holds this tag.
pub tag_append-IsNewFile :
    (h : Handle) (t : AttrVal)
    → IsNewFile h
    → IsTag t
    → IsRoomy (t ∷ [])
    → (g : Handle) × (tag_append h t ≡ ok g) × IsTagFile g (t ∷ [])
unfolding tag_append
tag_append-IsNewFile h t d v k = (
  with_bytes (started h) (tag_record t),
  result,
  added (started h) [] t (started-IsTagFile h d) k,
)
  where
    result : tag_append h t ≡ ok (with_bytes (started h) (tag_record t))
    result =
        ap (λ (m : Outcome Bytes). m >>= (λ b. check_magic h b >>= λ g. append_record g t))
          (pread_end h [] [] 4 d.opened d.whole d.empty (omega arith))
        ∙ ap (λ (m : Outcome Handle). m >>= λ g. append_record g t) (started_lem h d)
        ∙ append_record_lem (started h) t (started-IsTagFile h d).whole v

-- one call for each tag
abbrev pub append_tags : List AttrVal → Handle → Outcome Handle
append_tags [] h = ok h
append_tags (t ∷ ts) h = tag_append h t >>= append_tags ts

append_tags_lem :
    (us : List AttrVal) (h : Handle) (ts : List AttrVal)
    → IsTagFile h ts
    → All IsTag us
    → IsRoomy (ts ++ us)
    → (g : Handle) × (append_tags us h ≡ ok g) × IsTagFile g (ts ++ us)
append_tags_lem [] h ts d v r =
    (h, refl, subst (λ (l : List AttrVal). IsTagFile h l) (sym (append-nil ts)) d)
append_tags_lem (u ∷ us) h ts d (vu, vs) r =
    let (g, e, w) = tag_append-IsTagFile h ts u d vu (IsRoomy-before ts us u r) in
    let (k, f, x) =
      append_tags_lem us g (ts ++ u ∷ []) w vs
        (subst IsRoomy (sym (append_assoc ts (u ∷ []) us)) r) in
    (k, rw e f, subst (λ (l : List AttrVal). IsTagFile k l) (append_assoc ts (u ∷ []) us) x)

-- Tags that `IsTag` admits and that are added one by one to an empty file that can be written to
-- are all read back, if their file stays shorter than 2 ^ 31 bytes: every call succeeds, and
-- `tagsread` returns the code 0 and, in the order of the calls, each tag as `reread_tag` says, with
-- two rounds more than there are tags. A value is read back with its bytes, a binary one with the
-- size 0.
pub tagsread-append_tags :
    (h : Handle) (t : AttrVal) (ts : List AttrVal)
    → IsNewFile h
    → All IsTag (t ∷ ts)
    → IsRoomy (t ∷ ts)
    → (g : Handle) × (append_tags (t ∷ ts) h ≡ ok g)
      × (tagsread (length ts + 3) g ≡ some (ok (0, map reread_tag (t ∷ ts))))
tagsread-append_tags h t ts n (vt, vs) r =
    let (g, e, w) = tag_append-IsNewFile h t n vt (IsRoomy-before [] ts t r) in
    let (k, f, x) = append_tags_lem ts g (t ∷ []) w vs r in
    (k, rw e f, tagsread-IsTagFile k (t ∷ ts) (length ts + 3) x (vt, vs) (omega arith))

-- the name of a file that a call gave, or this one
abbrev name_or : Option Bytes → Outcome Handle → Option Bytes
name_or n (ok g) = g.filename
name_or n (err e) = n
name_or n fault = n

magic_name : (h : Handle) (m : Bytes) → name_or h.filename (check_magic h m) ≡ h.filename
unfolding pwrite
magic_name h m = ground arith

magic_frame : (h g : Handle) (m : Bytes) → check_magic h m ≡ ok g → g.filename ≡ h.filename
magic_frame h g m e = sym (ap (name_or h.filename) e) ∙ magic_name h m

record_frame :
    (h g : Handle) (t : AttrVal)
    → append_record h t ≡ ok g
    → (g.filename ≡ h.filename) × (g.modified ≡ true)
unfolding append_record append
record_frame h g t e = ground arith

-- Adding a tag changes the file, and keeps its name.
pub tag_append_frame :
    (h g : Handle) (t : AttrVal)
    → tag_append h t ≡ ok g
    → (g.filename ≡ h.filename) × (g.modified ≡ true)
unfolding tag_append
tag_append_frame h g t e =
    let (m, km, hm) = parts_of (pread h 4 0) e in
    let (k, kk, hk) = parts_of (check_magic h m) km in
    let (f, w) = record_frame k g t kk in (f ∙ magic_frame h k m hk, w)
