-- ===== src/Tags/Format.antt =====
-- A record of the tags file is parsed back to the tag that it was written from.
use glite_jp.Base.{
  ◌<◌, ◌^◌, [], ◌∷◌, ◌++◌, Bytes, Bool, true, false, some, ok, All, All-append, length, ◌≡◌, refl,
  sym, ap, append_assoc, arith, Fits, ℤ,
}
use glite_jp.Base.Decimal.{print_int, skip_space}
use glite_jp.Base.Decimal.Laws.{strtol-print_int, print_int-above, number-print_int}
use glite_jp.Types.{AttrVal}
use glite_jp.Tags.{
  kind_char, tag_bytes, record_body, split_nul, scan_stamp, parsed, parse_record, stamp_of, kinded,
  tag_of,
}

-- What a record can hold: a name without a NUL and a timestamp of 64 bits, in 32 bits of length.
pub record IsTag (t : AttrVal) : Type 0 where
  pub named : All (λ c. 0 < c) t.name
  pub stamped : Fits 63 t.timestamp
  pub short : length (record_body t) < 2 ^ 32

-- The tag as it is read back: the origin is the user, and the size is lost.
abbrev pub reread_tag : AttrVal → AttrVal
reread_tag t = tag_of t.name t.timestamp t.binary (tag_bytes t)

split_text : (s r : Bytes) → All (λ c. 0 < c) s → split_nul (s ++ 0 ∷ r) ≡ some (s, r)
unfolding split_nul
split_text [] r h = refl
split_text (c ∷ s) r (hc, hs) = ground (arith, split_text s r hs)

abbrev stamp_text : ℤ → Bool → Bytes
stamp_text t k = print_int t ++ b' ' ∷ kind_char k ∷ []

stamp_text-above : (t : ℤ) (k : Bool) → All (λ c. 0 < c) (stamp_text t k)
stamp_text-above t k =
    All-append (λ c. 0 < c) (print_int t) (b' ' ∷ kind_char k ∷ []) (print_int-above t)
      (omega arith, (kind-above k, tt))
  where
    kind-above : (k : Bool) → 0 < kind_char k
    kind-above k = ground arith

stamp_of_lem :
    (t : ℤ) (k : Bool)
    → stamp_of (record { number = t; rest = b' ' ∷ kind_char k ∷ [] }) ≡ some (t, kind_char k)
unfolding stamp_of skip_space
stamp_of_lem t true = refl
stamp_of_lem t false = refl

scan_stamp_lem :
    (t : ℤ) (k : Bool) → Fits 63 t → scan_stamp (stamp_text t k) ≡ some (t, kind_char k)
unfolding scan_stamp
scan_stamp_lem t k h =
    let n = number-print_int t (b' ' ∷ kind_char k ∷ []) in
    rw (n.0, n.1, strtol-print_int t (b' ' ∷ kind_char k ∷ []) h refl) (stamp_of_lem t k)

kinded_lem :
    (name : Bytes) (t : ℤ) (k : Bool) (v : Bytes)
    → kinded name t (kind_char k) v ≡ parsed (tag_of name t k v)
kinded_lem name t true v = refl
kinded_lem name t false v = refl

body_split :
    (t : AttrVal)
    → record_body t ≡ t.name ++ 0 ∷ (stamp_text t.timestamp t.binary ++ 0 ∷ tag_bytes t)
unfolding record_body
body_split t = ap (λ (s : Bytes). t.name ++ 0 ∷ s) (sym (append_assoc (print_int t.timestamp) _ _))

-- Parsing a record's body gives its tag.
pub parse-record_body :
    (t : AttrVal) → IsTag t → parse_record (record_body t) ≡ ok (parsed (reread_tag t))
unfolding parse_record
parse-record_body t w =
    rw
      (
        body_split t,
        split_text t.name _ w.named,
        split_text (stamp_text t.timestamp t.binary) (tag_bytes t)
            (stamp_text-above t.timestamp t.binary),
        scan_stamp_lem t.timestamp t.binary w.stamped,
      )
      (ap ok (kinded_lem t.name t.timestamp t.binary (tag_bytes t)))
