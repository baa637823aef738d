-- ===== src/Handle.antt =====
-- The open files of org.glite.jp.primary/src/new_ftp_backend.c: a file is read whole into memory
-- when it is opened, and is written back when a changed one is closed.
pub mod Laws
use glite_jp.Base.{
  ℕ, ◌+◌, ◌-◌, ◌%◌, ◌^◌, ◌++◌, Bytes, Bool, true, false, ◌||◌, Option, some, none, ltb, leb, ◌==◌,
  if◌then◌else◌, Outcome, ok, fault, take, drop, length,
}

-- struct fhandle_rec. The field `offset` is written and never read, and is left out, as is the
-- open gzip stream, which is only closed. `eof` is the 32 bits of a signed int.
pub record Handle : Type 0 where
  pub filename : Option Bytes
  pub filemode : ℕ
  pub filedata : Bytes
  pub eof : ℕ
  pub modified : Bool

abbrev is_open : Handle → Bool
is_open h = elim h.filename [ some n ↦ true | none ↦ false ]

-- a negative end; where it is compared with the end of a read or a write it is taken for a number
-- near 2 ^ 64
abbrev pub is_minus : ℕ → Bool
is_minus n = leb (2 ^ 31) n

-- `int to_read`: a negative one copies a negative number of bytes
abbrev pub part_of : Handle → ℕ → ℕ → Outcome Bytes
part_of h nbytes offset =
    if is_minus (nbytes % 2 ^ 32) || ltb (length h.filedata) (offset + nbytes % 2 ^ 32)
    then fault
    else ok (take (nbytes % 2 ^ 32) (drop offset h.filedata))

-- A read that begins behind the end copies a negative number of bytes. Without a filename the call
-- returns 0 and sets nothing, which the callers then read: both are faults.
unfoldable pub pread : Handle → ℕ → ℕ → Outcome Bytes
pread h nbytes offset =
    if is_open h
    then (if is_minus h.eof
        then part_of h nbytes offset
        else if ltb h.eof offset
        then fault
        else if ltb h.eof (offset + nbytes)
        then ok (take (h.eof - offset) (drop offset h.filedata))
        else ok (take nbytes (drop offset h.filedata)))
    else fault

-- The file after a write. A write behind the end would leave bytes that were never set, which is
-- a fault here; no caller does so.
abbrev pub written_at : Handle → Bytes → ℕ → Handle
written_at h buf offset = record h {
  filedata = take offset h.filedata ++ (buf ++ drop (offset + length buf) h.filedata);
  eof = if ltb h.eof (offset + length buf) then (offset + length buf) % 2 ^ 32 else h.eof;
  modified = true;
}

-- On a closed or a read-only file the error is stacked with the code 0, which is returned: nothing
-- is written and the caller sees success. With a negative end the file is not made larger.
unfoldable pub pwrite : Handle → Bytes → ℕ → Outcome Handle
pwrite h buf offset =
    if is_open h
    then (if h.filemode % 4 == 0
        then ok h
        else if is_minus h.eof
        then (if ltb (length h.filedata) (offset + length buf)
            then fault
            else ok (record (written_at h buf offset) { eof = h.eof }))
        else if ltb h.eof offset
        then fault
        else ok (written_at h buf offset))
    else ok h

-- what stands before the end, and the new bytes
abbrev pub with_bytes : Handle → Bytes → Handle
with_bytes h buf = record h {
  filedata = take h.eof h.filedata ++ buf;
  eof = (h.eof + length buf) % 2 ^ 32;
  modified = true;
}

-- Appending does not look at the mode. With a negative end it writes before the data.
unfoldable pub append : Handle → Bytes → Outcome Handle
append h buf = if is_minus h.eof then fault else ok (with_bytes h buf)
