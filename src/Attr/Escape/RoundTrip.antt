-- ===== src/Attr/Escape/RoundTrip.antt =====
-- `unescape_colon` undoes `escape_colon`, within the memory that both are given.
use glite_jp.Base.{
  ℕ, ◌*◌, ◌≤◌, [], ◌∷◌, ◌++◌, Bytes, ◌≡◌, refl, arith, Outcome, ok, err, fault, length,
  length-append, append_assoc,
}
use glite_jp.Attr.Escape.{
  colon, escape_byte, escape_colon, counted, copied, unescape_count, unescape_copy, unescape_colon,
}

-- What may follow an escaped text: nothing, or the colon that ends the field.
abbrev pub EndsField : Bytes → Type 0
EndsField [] = Unit
EndsField (c ∷ s) = c ≡ colon

count_end : (r : Bytes) → EndsField r → unescape_count r ≡ ok 0
unfolding unescape_count
count_end [] h = refl
count_end (c ∷ []) h = ground arith
count_end (c ∷ d ∷ s) h = ground arith

copy_end : (r : Bytes) → EndsField r → unescape_copy r ≡ ok ([], 0)
unfolding unescape_copy
copy_end [] h = refl
copy_end (c ∷ []) h = ground arith
copy_end (c ∷ d ∷ s) h = ground arith

-- how many bytes a copy wrote
abbrev written : Outcome (Bytes × ℕ) → Outcome ℕ
written (ok (out, i)) = ok (length out)
written (err e) = err e
written fault = fault

written-copied : (d k : ℕ) (m : Outcome (Bytes × ℕ)) → written (copied d k m) ≡ counted (written m)
unfolding copied
written-copied d k (ok p) = refl
written-copied d k (err e) = refl
written-copied d k fault = refl

count_pair :
    (s : Bytes) (c d : ℕ)
    → unescape_count s ≡ written (unescape_copy s)
    → unescape_count (d ∷ s) ≡ written (unescape_copy (d ∷ s))
    → unescape_count (c ∷ d ∷ s) ≡ written (unescape_copy (c ∷ d ∷ s))
unfolding unescape_count unescape_copy
count_pair s c d h k =
    ground (arith, written-copied c 1 (unescape_copy (d ∷ s)), written-copied d 2 (unescape_copy s))

-- The count is what the copy writes, or both read past the NUL.
count-copy : (s : Bytes) → unescape_count s ≡ written (unescape_copy s)
count-copy [] = unfold unescape_count unescape_copy in refl
count-copy (c ∷ []) = unfold unescape_count unescape_copy in ground arith
count-copy (c ∷ d ∷ s) = count_pair s c d (count-copy s) (count-copy (d ∷ s))

-- one round, on a byte and on what follows it
copy_round :
    (c : ℕ) (s : Bytes)
    → unescape_copy (escape_byte c ++ s) ≡ copied c (length (escape_byte c)) (unescape_copy s)
unfolding unescape_copy copied
copy_round c [] = ground arith
copy_round c (d ∷ s) = ground arith

copy-escape :
    (d r : Bytes)
    → EndsField r
    → unescape_copy (escape_colon d ++ r) ≡ ok (d, length (escape_colon d))
unfolding escape_colon
copy-escape [] r h = copy_end r h
copy-escape (c ∷ d) r h =
    rw (append_assoc, copy_round, copy-escape d r h, length-append) (unfold copied in refl)

-- Unescaping an escaped text that ends its field gives the text back and reads all of it.
pub unescape-escape :
    (d r : Bytes)
    → EndsField r
    → unescape_colon (escape_colon d ++ r) ≡ ok (d, length (escape_colon d))
unfolding unescape_colon
unescape-escape d r h = rw (count-copy, copy-escape d r h)

-- `escape_colon` does not make a text more than twice as long.
pub length-escape : (d : Bytes) → length (escape_colon d) ≤ 2 * length d
unfolding escape_colon
length-escape [] = omega arith
length-escape (c ∷ d) =
    ground (arith, length-append (escape_byte c) (escape_colon d), length-escape d)
