-- ===== src/Tags.antt =====
-- org.glite.jp.primary/src/tags.c: the file of user tags of a job. It begins with a magic number;
-- each record is its length, the name and its NUL, `%ld %c` of the timestamp and the kind with a
-- NUL, and the value.
pub mod Word
pub mod Format
pub mod File
pub mod Appending
pub mod Lookup
use glite_jp.Base.{
  ℕ, zero, suc, ◌+◌, ◌-◌, ◌^◌, [], ◌∷◌, ◌++◌, Bytes, Bool, true, false, Option, some, none, List,
  ltb, ◌==◌, if◌then◌else◌, ◌&&◌, ◌||◌, Outcome, ok, err, fault, ◌>>=◌, eio, einval, enoent, take,
  drop, length, same, ℤ, pos,
}
use glite_jp.Base.Decimal.{Scan, print_int, strtol, skip_space, has_number}
use glite_jp.Types.{AttrVal, orig_user}
use glite_jp.Attr.Compare.{attrval_copy}
use glite_jp.Handle.{Handle, pread, pwrite, append}
use glite_jp.Tags.Word.{be32, of_be32}

abbrev pub tags_magic : ℕ
tags_magic = 0x74c016f2

abbrev pub kind_char : Bool → ℕ
kind_char binary = if binary then b'B' else b'S'

-- the bytes of the value that go into a record; a null pointer is the empty value
abbrev pub tag_bytes : AttrVal → Bytes
tag_bytes t = if t.binary then take t.size t.value else t.value

-- what follows the length of a record
unfoldable pub record_body : AttrVal → Bytes
record_body t = t.name ++ 0 ∷ (print_int t.timestamp ++ b' ' ∷ kind_char t.binary ∷ 0 ∷ tag_bytes t)

-- A length that does not fit in 32 bits overruns the buffer that is allocated for it.
pub append_record : Handle → AttrVal → Outcome Handle
append_record h t =
    let body = record_body t in
    if ltb (length body) (2 ^ 32) then append h (be32 (length body) ++ body) else fault

-- the four bytes at the start of the file
abbrev pub check_magic : Handle → Bytes → Outcome Handle
check_magic h m =
    if length m == 0
    then pwrite h (be32 tags_magic) 0
    else if length m == 4
    then (if same m (be32 tags_magic) then ok h else err einval)
    else err eio

unfoldable pub tag_append : Handle → AttrVal → Outcome Handle
unfolding append_record
tag_append h t = do m ← pread h 4 0; g ← check_magic h m; append_record g t

-- a C string in a buffer, and what stands behind its NUL
pub split_nul : Bytes → Option (Bytes × Bytes)
split_nul [] = none
split_nul (c ∷ s) =
    if c == 0
    then some ([], s)
    else elim (split_nul s) [ none ↦ none | some (l, r) ↦ some (c ∷ l, r) ]

abbrev first_byte : Bytes → Option ℕ
first_byte [] = none
first_byte (c ∷ s) = some c

-- ` %c` behind the number
pub stamp_of : Scan → Option (ℤ × ℕ)
stamp_of r = elim (first_byte (skip_space r.rest)) [ none ↦ none | some c ↦ some (r.number, c) ]

-- `sscanf(rp, "%ld %c", &timestamp, &type)`: where an item does not match, `type` stays unset
pub scan_stamp : Bytes → Option (ℤ × ℕ)
scan_stamp s = if has_number (skip_space s) then stamp_of (strtol s) else none

-- What a record gives: a tag, or an invalid kind.
pub data Parsed : Type 0 where
  parsed : AttrVal → Parsed
  bad_kind : Parsed

-- `size` of a binary tag is never set.
abbrev tag_of : Bytes → ℤ → Bool → Bytes → AttrVal
tag_of name timestamp binary value = record {
  name = name;
  value = value;
  binary = binary;
  size = 0;
  origin = orig_user;
  origin_detail = none;
  timestamp = timestamp;
}

abbrev kinded : Bytes → ℤ → ℕ → Bytes → Parsed
kinded name ts c value =
    if c == b'B'
    then parsed (tag_of name ts true value)
    else if c == b'S'
    then parsed (tag_of name ts false value)
    else bad_kind

abbrev or_fault : {A : Type 0} → Option A → Outcome A
or_fault none = fault
or_fault (some a) = ok a

pub parse_record : Bytes → Outcome Parsed
parse_record rec = do
  (name, r) ← or_fault (split_nul rec)
  (stamp, value) ← or_fault (split_nul r)
  (ts, c) ← or_fault (scan_stamp stamp)
  ok (kinded name ts c value)

-- The loop that reads a record's body until it has `rlen` bytes. `none` means that the fuel ran
-- out: at the end of the file the loop reads 0 bytes again and again.
pub read_body : ℕ → Handle → ℕ → ℕ → Bytes → Option (Outcome Bytes)
read_body zero h rlen off got = none
read_body (suc f) h rlen off got =
    if ltb (length got) rlen
    then elim (pread h (rlen - length got) (off + length got)) [
      | ok more ↦ read_body f h rlen off (got ++ more)
      | err e ↦ some (err eio)
      | fault ↦ some fault
    ]
    else some (ok got)

-- What the loop over the records returns: a code, and the tags that were read. `none` means that
-- the fuel ran out.
abbrev pub ReadResult : Type 0
ReadResult = Option (Outcome (ℕ × List AttrVal))

-- `rec` has been read: it is parsed and added, or everything is dropped.
abbrev pub with_record : Outcome Parsed → List AttrVal → (List AttrVal → ReadResult) → ReadResult
with_record (ok (parsed t)) acc go = go (acc ++ t ∷ [])
with_record (ok bad_kind) acc go = some (ok (einval, []))
with_record (err e) acc go = some (err e)
with_record fault acc go = some fault

abbrev pub with_body :
    Option (Outcome Bytes) → List AttrVal → (List AttrVal → ReadResult) → ReadResult
with_body none acc go = none
with_body (some (ok rec)) acc go = with_record (parse_record rec) acc go
with_body (some (err e)) acc go = some (ok (eio, acc))
with_body (some fault) acc go = some fault

-- `w` is the length word that was read: nothing at the end of the file.
abbrev pub with_word : Outcome Bytes → List AttrVal → (ℕ → ReadResult) → ReadResult
with_word (err e) acc go = some (ok (eio, acc))
with_word fault acc go = some fault
with_word (ok []) acc go = some (ok (0, acc))
with_word (ok (a ∷ w)) acc go = elim (length (a ∷ w) == 4) [
  | true ↦ go (of_be32 (a ∷ w))
  | false ↦ some (ok (eio, acc))
]

pub tags_loop : ℕ → Handle → ℕ → List AttrVal → ReadResult
tags_loop zero h off acc = none
tags_loop (suc f) h off acc =
    with_word (pread h 4 off) acc
      λ rlen. with_body (read_body f h rlen (off + 4) []) acc (tags_loop f h (off + 4 + rlen))

-- the magic number
abbrev pub with_magic : Outcome Bytes → ReadResult → ReadResult
with_magic (err e) go = some (ok (eio, []))
with_magic fault go = some fault
with_magic (ok m) go = elim (length m == 4) [
  | false ↦ some (ok (eio, []))
  | true ↦ elim (same m (be32 tags_magic)) [ false ↦ some (ok (einval, [])) | true ↦ go ]
]

unfoldable pub tagsread : ℕ → Handle → ReadResult
unfolding tags_loop read_body parse_record split_nul scan_stamp stamp_of
tagsread fuel h = with_magic (pread h 4 0) (tags_loop fuel h 4 [])

-- struct tags_handle; a null array of tags is the empty list.
pub record TagsHandle : Type 0 where
  pub bhandle : Handle
  pub tags : List AttrVal

-- copies of the tags with this name
unfoldable pub select_tags : Bytes → List AttrVal → List AttrVal
select_tags attr [] = []
select_tags attr (t ∷ ts) =
    if same t.name attr then attrval_copy t ∷ select_tags attr ts else select_tags attr ts

abbrev pub TagResult : Type 0
TagResult = Option (Outcome (List AttrVal × TagsHandle))

abbrev found_tags : List AttrVal → TagsHandle → Outcome (List AttrVal × TagsHandle)
found_tags [] h = err enoent
found_tags (t ∷ ts) h = ok (t ∷ ts, h)

-- The code of `tagsread` is not looked at.
abbrev loaded : ReadResult → TagsHandle → Bytes → TagResult
loaded none h attr = none
loaded (some fault) h attr = some fault
loaded (some (err e)) h attr = some (err enoent)
loaded (some (ok (code, ts))) h attr =
    some (found_tags (select_tags attr ts) (record h { tags = ts }))

abbrev attr_of : ℕ → List AttrVal → TagsHandle → Bytes → TagResult
attr_of fuel [] h attr = loaded (tagsread fuel h.bhandle) h attr
attr_of fuel (t ∷ ts) h attr = some (found_tags (select_tags attr (t ∷ ts)) h)

unfoldable pub tag_attr : ℕ → TagsHandle → Bytes → TagResult
tag_attr fuel h attr = attr_of fuel h.tags h attr
