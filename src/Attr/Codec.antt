-- ===== src/Attr/Codec.antt =====
-- The fallback type plugin of attr.c: the text form of an attribute value in the database.
pub mod Buffer
pub mod RoundTrip
pub mod Index
use glite_jp.Base.{
  ℕ, suc, zero, ◌+◌, ◌-◌, ◌*◌, ◌/◌, ◌%◌, ◌^◌, ◌≤◌, [], ◌∷◌, ◌++◌, Bytes, codes, ltb, ◌==◌,
  if◌then◌else◌, ◌||◌, ◌&&◌, Bool, true, false, not, Option, some, none, Outcome, ok, err, fault,
  einval, ◌>>=◌, ◌>>◌, require, length, take, drop, get_elem?, wrap32, ◌≡◌,
}
use glite_jp.Base.Decimal.{print_int, atol}
use glite_jp.Types.{AttrVal, orig_any, orig_file}
use glite_jp.Attr.Escape.{colon, escape_colon, unescape_colon}

-- `base64_encode` and `base64_decode` of another library: the text or the bytes, or a negative
-- number when they do not fit. `leftover` is the buffer that a failed decoding leaves.
pub record Base64 : Type 0 where
  pub encode : Bytes → ℕ → Option Bytes
  pub decode : Bytes → ℕ → Option Bytes
  pub leftover : Bytes → Bytes
  pub encode_fits : (v e : Bytes) (m : ℕ) → encode v m ≡ some e → length e ≤ m
  pub decode_encode :
      (v e : Bytes) (m n : ℕ) → encode v m ≡ some e → length e ≤ n → decode e n ≡ some v

-- static char orig_char[] = "ASUF"
abbrev pub orig_chars : Bytes
orig_chars = codes "ASUF"

-- reading the array, with its NUL
abbrev pub char_at : Bytes → ℕ → ℕ
char_at [] i = 0
char_at (c ∷ s) zero = c
char_at (c ∷ s) (suc i) = char_at s i

abbrev pub detail_length : Option Bytes → ℕ
detail_length none = 0
detail_length (some d) = length d

abbrev pub escape_detail : Option Bytes → Bytes
escape_detail none = []
escape_detail (some d) = escape_colon d

-- the 32 bits of `int vsize`, which is cut from a size_t
abbrev pub vsize : AttrVal → ℕ
vsize a = if a.binary then (a.size * 4 % 2 ^ 64 / 3 + 6) % 2 ^ 32 else (length a.value + 1) % 2 ^ 32

-- What `fb_to_db_full` allocates. A negative `vsize` counts as a number near 2 ^ 64.
unfoldable pub db_alloc : AttrVal → ℕ
db_alloc a =
    let before = 19 + 2 * detail_length a.origin_detail in
    if ltb (vsize a) (2 ^ 31)
    then before + vsize a
    else (before + (2 ^ 64 - 2 ^ 32) + vsize a) % 2 ^ 64

-- The value behind the header. With a negative room nothing is encoded.
abbrev pub value_text : Base64 → AttrVal → Option Bytes
value_text b a =
    if a.binary
    then (if ltb 0 (vsize a) && ltb (vsize a) (2 ^ 31)
        then b.encode (take a.size a.value) (vsize a - 1)
        else none)
    else some a.value

abbrev pub type_char : Bool → ℕ
type_char binary = if binary then b'B' else b'S'

-- `%c:%d:%c:`, the escaped detail and a colon
abbrev pub header : AttrVal → Bytes → Bytes
header a text =
    type_char a.binary
    ∷ colon
    ∷ (print_int (wrap32 a.timestamp)
        ++ colon
          ∷ char_at orig_chars a.origin
          ∷ colon
          ∷ (escape_detail a.origin_detail ++ colon ∷ text))

abbrev pub with_header : AttrVal → Option Bytes → Option Bytes
with_header a none = none
with_header a (some text) = some (header a text)

unfoldable pub fb_to_db_full : Base64 → AttrVal → Option Bytes
fb_to_db_full b a = if ltb orig_file a.origin then none else with_header a (value_text b a)

-- `len` is the length of the index column. Binary values are not really handled.
unfoldable pub fb_to_db_index : AttrVal → ℕ → Bytes
fb_to_db_index a len =
    if a.binary then codes "XXX" else if ltb len (length a.value) then take len a.value else a.value

-- `strchr(s, ':')`: what stands before the colon and behind it
unfoldable pub strchr_colon : Bytes → Option (Bytes × Bytes)
strchr_colon [] = none
strchr_colon (c ∷ s) =
    if c == colon
    then some ([], s)
    else elim (strchr_colon s) [ none ↦ none | some (l, r) ↦ some (c ∷ l, r) ]

-- `for (o = 0; orig_char[o] && orig_char[o] != c; o++);`, and `none` at the NUL
abbrev pub find_orig : Bytes → ℕ → ℕ → Option ℕ
find_orig [] o c = none
find_orig (x ∷ xs) o c = if x == c then some o else find_orig xs (suc o) c

abbrev pub or_einval : {A : Type 0} → Option A → Outcome A
or_einval none = err einval
or_einval (some a) = ok a

-- The detail and what follows it: an empty field is a null pointer.
read_detail : Bytes → Outcome (Option Bytes × Bytes)
read_detail [] = unescape_colon [] >>= λ (d, r). ok (some d, drop r [])
read_detail (c ∷ s) =
    if c == colon
    then ok (none, c ∷ s)
    else unescape_colon (c ∷ s) >>= λ (d, r). ok (some d, drop r (c ∷ s))

-- `if (cp[p++] != ':') return EINVAL;`
expect_colon : Bytes → Outcome Bytes
expect_colon [] = err einval
expect_colon (c ∷ s) = if c == colon then ok s else err einval

-- `attr->size` is unsigned, so the test for a negative size behind the call never holds.
pub decode_value : Base64 → Bytes → ℕ → AttrVal → Outcome AttrVal
decode_value b text n a = ok (elim (b.decode text n) [
  | some v ↦ record a { value = v; size = length v }
  | none ↦ record a { value = b.leftover text; size = 2 ^ 64 - 1 }
])

-- The header behind the origin's letter: its separator is skipped unread.
read_tail : Base64 → ℕ → AttrVal → Bytes → Outcome AttrVal
read_tail b n a [] = fault
read_tail b n a (c ∷ s) = do
  (detail, r) ← read_detail s
  text ← expect_colon r
  let a' = record a { origin_detail = detail }
  if a'.binary then decode_value b text n a' else ok (record a' { value = text })

read_origin : Base64 → ℕ → AttrVal → Bytes → Outcome AttrVal
read_origin b n a [] = err einval
read_origin b n a (c ∷ s) = do
  o ← or_einval (find_orig orig_chars orig_any c)
  read_tail b n (record a { origin = o }) s

-- `n` is strlen(str), the room for a decoded value.
read_header : Base64 → ℕ → AttrVal → Bytes → Outcome AttrVal
read_header b n a [] = fault
read_header b n a (c ∷ s) = do
  (t, r) ← or_einval (strchr_colon s)
  read_origin b n (record a { timestamp = atol t }) r

-- The record that is handed in keeps its name, and its size if the value is a string. On an error
-- its contents are not to be used.
unfoldable pub fb_from_db : Base64 → Bytes → AttrVal → Outcome AttrVal
unfolding read_header read_origin read_tail read_detail expect_colon decode_value strchr_colon
fb_from_db b [] a = err einval
fb_from_db b (t ∷ s) a = do
  require (t == b'B' || t == b'S') einval
  read_header b (length (t ∷ s)) (record a { binary = t == b'B' }) s
