-- ===== src/Attr/Codec/RoundTrip.antt =====
-- Reading back what `fb_to_db_full` wrote.
use glite_jp.Base.{
  Bool, ℕ, suc, ◌≤◌, ◌<◌, ◌≡◌, ◌≢◌, refl, sym, ap, ◌∙◌, arith, Bytes, length, length-append, Option,
  some, none, ltb, Bool-cases, inl, inr, wrap32, wrap32-Fits, subst, [], ◌∷◌, ◌++◌, append-nil,
  true, false, if◌then◌else◌, All, Outcome, ok, drop, drop-append, take, take-length, ℤ, pos,
  negsuc, Fits, ◌-◌,
}
use glite_jp.Base.Decimal.{print_int, atol}
use glite_jp.Base.Decimal.Laws.{atol-print_int, print_int-below}
use glite_jp.Types.{AttrVal, orig_file}
use glite_jp.Attr.Compare.Order.{IsSized}
use glite_jp.Attr.Escape.{colon, escape_colon, unescape_colon}
use glite_jp.Attr.Escape.RoundTrip.{unescape-escape}
use glite_jp.Attr.Codec.{
  Base64, fb_to_db_full, fb_from_db, strchr_colon, find_orig, orig_chars, char_at, read_detail,
  expect_colon, decode_value, read_tail, read_origin, read_header, escape_detail, header,
  with_header, value_text, type_char, vsize,
}

-- An empty detail is written like a null pointer.
abbrev pub detail_back : Option Bytes → Option Bytes
detail_back none = none
detail_back (some []) = none
detail_back (some (c ∷ d)) = some (c ∷ d)

strchr_field : (s r : Bytes) → All (λ c. c < 58) s → strchr_colon (s ++ colon ∷ r) ≡ some (s, r)
unfolding strchr_colon
strchr_field [] r h = refl
strchr_field (c ∷ s) r (hc, hs) = ground (arith, strchr_field s r hs)

Fits-long : (t : ℤ) → Fits 31 t → Fits 63 t
Fits-long (pos n) h = omega arith
Fits-long (negsuc n) h = omega arith

atol-wrap32 : (t : ℤ) → atol (print_int (wrap32 t)) ≡ wrap32 t
atol-wrap32 t =
    ap atol (sym (append-nil (print_int (wrap32 t))))
    ∙ atol-print_int (wrap32 t) [] (Fits-long (wrap32 t) (wrap32-Fits t)) tt

find-char_at : (o : ℕ) → o ≤ orig_file → find_orig orig_chars 0 (char_at orig_chars o) ≡ some o
find-char_at o h = ground arith

-- what does not begin with a colon
abbrev Head : Bytes → Type 0
Head [] = ⊥
Head (c ∷ s) = c ≢ colon

escape-Head : (c : ℕ) (d r : Bytes) → Head (escape_colon (c ∷ d) ++ r)
unfolding escape_colon
escape-Head c d r = ground arith

read_Head :
    (s d : Bytes) (n : ℕ)
    → Head s
    → unescape_colon s ≡ ok (d, n)
    → read_detail s ≡ ok (some d, drop n s)
unfolding read_detail
read_Head [] d n h u = absurd h
read_Head (c ∷ s) d n h u = ground arith

read-escape_detail :
    (d : Option Bytes) (r : Bytes)
    → read_detail (escape_detail d ++ colon ∷ r) ≡ ok (detail_back d, colon ∷ r)
read-escape_detail none r = unfold read_detail in refl
read-escape_detail (some []) r = unfold read_detail escape_colon in refl
read-escape_detail (some (c ∷ d)) r =
    read_Head _ (c ∷ d) (length (escape_colon (c ∷ d))) (escape-Head c d (colon ∷ r))
      (unescape-escape (c ∷ d) (colon ∷ r) refl)
    ∙ ap (λ (s : Bytes). ok (some (c ∷ d), s)) (drop-append (escape_colon (c ∷ d)) (colon ∷ r))

-- the record with its header read
abbrev headed : AttrVal → AttrVal → AttrVal
headed a x = record x {
  binary = a.binary;
  origin = a.origin;
  origin_detail = detail_back a.origin_detail;
  timestamp = wrap32 a.timestamp;
}

abbrev valued : Base64 → Bytes → ℕ → AttrVal → Outcome AttrVal
valued b text n x = if x.binary then decode_value b text n x else ok (record x { value = text })

tail_lem :
    (b : Base64) (n : ℕ) (x : AttrVal) (d : Option Bytes) (text : Bytes)
    → read_tail b n x (colon ∷ (escape_detail d ++ colon ∷ text))
      ≡ valued b text n (record x { origin_detail = detail_back d })
unfolding read_tail
tail_lem b n x d text = rw read-escape_detail (unfold expect_colon in refl)

origin_lem :
    (b : Base64) (n o : ℕ) (x : AttrVal) (r : Bytes)
    → o ≤ orig_file
    → read_origin b n x (char_at orig_chars o ∷ r) ≡ read_tail b n (record x { origin = o }) r
unfolding read_origin
origin_lem b n o x r h = rw (find-char_at o h)

header_lem :
    (b : Base64) (n : ℕ) (x : AttrVal) (t : ℤ) (r : Bytes)
    → read_header b n x (colon ∷ (print_int (wrap32 t) ++ colon ∷ r))
      ≡ read_origin b n (record x { timestamp = wrap32 t }) r
unfolding read_header
header_lem b n x t r =
    rw (strchr_field (print_int (wrap32 t)) r (print_int-below (wrap32 t)), atol-wrap32 t)

kind_lem :
    (b : Base64) (k : Bool) (s : Bytes) (x : AttrVal)
    → fb_from_db b (type_char k ∷ s) x ≡ read_header b (suc (length s)) (record x { binary = k }) s
unfolding fb_from_db
kind_lem b true s x = refl
kind_lem b false s x = refl

-- Every field of the header is read back, whatever text follows it.
pub from-header :
    (b : Base64) (a x : AttrVal) (text : Bytes)
    → a.origin ≤ orig_file
    → fb_from_db b (header a text) x ≡ valued b text (length (header a text)) (headed a x)
from-header b a x text h =
    rw (kind_lem b a.binary, header_lem, origin_lem b _ a.origin _ _ h, tail_lem)

length-text : (a : AttrVal) (text : Bytes) → length text ≤ length (header a text)
length-text a text = omega (
  arith,
  length-append (print_int (wrap32 a.timestamp)) _,
  length-append (escape_detail a.origin_detail) _,
)

text_decodes :
    (b : Base64) (a : AttrVal) (text : Bytes)
    → IsSized a
    → value_text b a ≡ some text
    → a.binary ≡ true
    → b.decode text (length (header a text)) ≡ some a.value
text_decodes b a text hs h e =
    b.decode_encode a.value text (vsize a - 1) _ encoded (length-text a text)
  where
    whole : take a.size a.value ≡ a.value
    whole = subst (λ (n : ℕ). take n a.value ≡ a.value) (hs e) (take-length a.value)

    encoded : b.encode a.value (vsize a - 1) ≡ some text
    encoded = subst (λ (v : Bytes). b.encode v (vsize a - 1) ≡ some text) whole (ground arith)

from-value :
    (b : Base64) (a x : AttrVal) (text : Bytes)
    → IsSized a
    → value_text b a ≡ some text
    → valued b text (length (header a text)) (headed a x)
      ≡ ok (record (headed a x) { value = a.value; size = if a.binary then a.size else x.size })
unfolding decode_value
from-value b a x text hs h = elim (Bool-cases a.binary) [
  | inl e ↦ ground (arith, text_decodes b a text hs h e, hs e)
  | inr e ↦ ground arith
]

value_of :
    (b : Base64) (a : AttrVal) (db : Bytes)
    → fb_to_db_full b a ≡ some db
    → (text : Bytes) × (value_text b a ≡ some text) × (header a text ≡ db) × (a.origin ≤ orig_file)
unfolding fb_to_db_full
value_of b a db h = go (value_text b a) refl h
  where
    go :
        (v : Option Bytes)
        → value_text b a ≡ v
        → (if ltb orig_file a.origin then none else with_header a v) ≡ some db
        → (text : Bytes) × (value_text b a ≡ some text)
          × (header a text ≡ db)
          × (a.origin ≤ orig_file)
    go none e k = ground arith
    go (some t) e k = elim (Bool-cases (ltb orig_file a.origin)) [
      | inl p ↦ cc
      | inr p ↦ (t, e, cc, ground arith)
    ]

-- The record `x` after it has been filled from the text of `a`.
abbrev pub reread : AttrVal → AttrVal → AttrVal
reread a x = record {
  name = x.name;
  value = a.value;
  binary = a.binary;
  size = if a.binary then a.size else x.size;
  origin = a.origin;
  origin_detail = detail_back a.origin_detail;
  timestamp = wrap32 a.timestamp;
}

-- What `fb_from_db` reads from a text that `fb_to_db_full` wrote of a value whose size is right: the kind, the value, the origin
-- and a non-empty detail are those written, the timestamp is cut to 32 bits, an empty detail is
-- none, and the name (and the size, for a string) is that of the record handed in.
pub fb_from_db-to_db :
    (b : Base64) (a x : AttrVal) (db : Bytes)
    → IsSized a
    → fb_to_db_full b a ≡ some db
    → fb_from_db b db x ≡ ok (reread a x)
fb_from_db-to_db b a x db hs h =
    let (text, e, p, o) = value_of b a db h in
    subst (λ (s : Bytes). fb_from_db b s x ≡ ok (reread a x)) p
      (from-header b a x text o ∙ from-value b a x text hs e)
