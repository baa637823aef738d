-- ===== src/Handle/Laws.antt =====
-- Reading, writing and appending keep the length of a file, and agree with each other.
use glite_jp.Base.{
  ℕ, zero, suc, ◌+◌, ◌-◌, ◌≤◌, ◌<◌, ◌^◌, ◌%◌, [], ◌∷◌, ◌++◌, Bytes, List, true, ok, take, drop,
  length, length-append, length-take, take-append, drop-append, ◌≡◌, refl, ap, sym, ◌∙◌, arith,
  subst,
}
use glite_jp.Handle.{Handle, is_open, pread, pwrite, append, with_bytes, written_at}

-- The end of the file is the length of its data, which an int holds.
abbrev pub IsWhole : Handle → Type 0
IsWhole h = (h.eof ≡ length h.filedata) × (length h.filedata < 2 ^ 31)

abbrev pub IsOpen : Handle → Type 0
IsOpen h = is_open h ≡ true

pub take_short {ℓ} : {A : Type ℓ} (n : ℕ) (xs : List A) → length xs ≤ n → take n xs ≡ xs
take_short zero [] h = refl
take_short zero (x ∷ xs) h = elim h [ ]
take_short (suc n) [] h = refl
take_short (suc n) (x ∷ xs) h = ap (λ t. x ∷ t) (take_short n xs (omega arith))

pub bytes_behind :
    (h : Handle) (buf : Bytes) → IsWhole h → (with_bytes h buf).filedata ≡ h.filedata ++ buf
bytes_behind h buf (w, s) = ap (λ (l : Bytes). l ++ buf) (take_short h.eof h.filedata (omega arith))

pub with_bytes-IsWhole :
    (h : Handle) (buf : Bytes)
    → IsWhole h
    → length h.filedata + length buf < 2 ^ 31
    → IsWhole (with_bytes h buf)
with_bytes-IsWhole h buf (w, s) k =
    subst (λ (l : Bytes). ((h.eof + length buf) % 2 ^ 32 ≡ length l) × (length l < 2 ^ 31))
      (sym (bytes_behind h buf (w, s)))
      (omega (arith, length-append h.filedata buf), omega (arith, length-append h.filedata buf))

pub append_lem : (h : Handle) (buf : Bytes) → IsWhole h → append h buf ≡ ok (with_bytes h buf)
unfolding append
append_lem h buf (w, s) = ground arith

length-drop {ℓ} : {A : Type ℓ} (n : ℕ) (xs : List A) → length (drop n xs) ≡ length xs - n
length-drop zero xs = omega arith
length-drop (suc n) [] = omega arith
length-drop (suc n) (x ∷ xs) = omega (arith, length-drop n xs)

length-written_at :
    (h : Handle) (buf : Bytes) (offset : ℕ)
    → offset ≤ length h.filedata
    → length (written_at h buf offset).filedata
      ≡ offset + (length buf + (length h.filedata - (offset + length buf)))
length-written_at h buf offset le = omega (
  arith,
  length-append (take offset h.filedata) (buf ++ drop (offset + length buf) h.filedata),
  length-append buf (drop (offset + length buf) h.filedata),
  length-take offset h.filedata le,
  length-drop (offset + length buf) h.filedata,
)

pub pwrite-IsWhole :
    (h g : Handle) (buf : Bytes) (offset : ℕ)
    → IsWhole h
    → offset + length buf < 2 ^ 31
    → pwrite h buf offset ≡ ok g
    → IsWhole g
unfolding pwrite
pwrite-IsWhole h g buf offset (w, s) k e =
    ground (arith, λ (le : offset ≤ length h.filedata). length-written_at h buf offset le)

pread-take :
    (h : Handle) (n offset : ℕ)
    → IsOpen h
    → IsWhole h
    → offset ≤ length h.filedata
    → pread h n offset ≡ ok (take n (drop offset h.filedata))
unfolding pread
pread-take h n offset o (w, s) le = ground (
  arith,
  take_short (h.eof - offset) (drop offset h.filedata),
  take_short n (drop offset h.filedata),
  length-drop offset h.filedata,
)

-- A read in the middle of a file.
pub pread_part :
    (h : Handle) (pre part post : Bytes)
    → IsOpen h
    → IsWhole h
    → h.filedata ≡ pre ++ (part ++ post)
    → pread h (length part) (length pre) ≡ ok part
pread_part h pre part post o w e =
    pread-take h (length part) (length pre) o w
      (omega (arith, ap (λ (l : Bytes). length l) e, length-append pre (part ++ post)))
    ∙ ap (λ (l : Bytes). ok (take (length part) (drop (length pre) l))) e
    ∙ ap (λ (l : Bytes). ok (take (length part) l)) (drop-append pre (part ++ post))
    ∙ ap ok (take-append part post)

-- A read up to the end or beyond returns what there is.
pub pread_end :
    (h : Handle) (pre part : Bytes) (n : ℕ)
    → IsOpen h
    → IsWhole h
    → h.filedata ≡ pre ++ part
    → length part ≤ n
    → pread h n (length pre) ≡ ok part
pread_end h pre part n o w e le =
    pread-take h n (length pre) o w
      (omega (arith, ap (λ (l : Bytes). length l) e, length-append pre part))
    ∙ ap (λ (l : Bytes). ok (take n (drop (length pre) l))) e
    ∙ ap (λ (l : Bytes). ok (take n l)) (drop-append pre part)
    ∙ ap ok (take_short n part le)
