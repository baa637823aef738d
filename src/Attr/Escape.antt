-- ===== src/Attr/Escape.antt =====
-- `escape_colon` and `unescape_colon` of attr.c.
pub mod RoundTrip
use glite_jp.Base.{
  ℕ, suc, ◌+◌, [], ◌∷◌, ◌++◌, Bytes, ◌==◌, if◌then◌else◌, true, false, Outcome, ok, err, fault,
  ◌>>=◌,
}

abbrev pub colon : ℕ
colon = b':'

abbrev pub backslash : ℕ
backslash = b'\\'

-- what one round of `escape_colon` writes
abbrev pub escape_byte : ℕ → Bytes
escape_byte c =
    if c == colon
    then backslash ∷ colon ∷ []
    else if c == backslash
    then backslash ∷ backslash ∷ []
    else c ∷ []

unfoldable pub escape_colon : Bytes → Bytes
escape_colon [] = []
escape_colon (c ∷ s) = escape_byte c ++ escape_colon s

abbrev pub counted : Outcome ℕ → Outcome ℕ
counted m = do n ← m; ok (suc n)

-- The first loop of `unescape_colon` counts the bytes to allocate. A lone backslash at the end
-- makes both loops step over the NUL.
pub unescape_count : Bytes → Outcome ℕ
unescape_count [] = ok 0
unescape_count (c ∷ []) = if c == colon then ok 0 else if c == backslash then fault else ok 1
unescape_count (c ∷ d ∷ s) = elim (c == colon) [
  | true ↦ ok 0
  | false ↦ elim (c == backslash) [
    | true ↦ counted (unescape_count s)
    | false ↦ counted (unescape_count (d ∷ s))
  ]
]

-- `d` is written, after `k` bytes were read.
pub copied : ℕ → ℕ → Outcome (Bytes × ℕ) → Outcome (Bytes × ℕ)
copied d k (ok (out, i)) = ok (d ∷ out, k + i)
copied d k (err e) = err e
copied d k fault = fault

-- The second loop copies, and counts the bytes that it read.
pub unescape_copy : Bytes → Outcome (Bytes × ℕ)
unescape_copy [] = ok ([], 0)
unescape_copy (c ∷ []) =
    if c == colon then ok ([], 0) else if c == backslash then fault else ok (c ∷ [], 1)
unescape_copy (c ∷ d ∷ s) = elim (c == colon) [
  | true ↦ ok ([], 0)
  | false ↦ elim (c == backslash) [
    | true ↦ copied d 2 (unescape_copy s)
    | false ↦ copied c 1 (unescape_copy (d ∷ s))
  ]
]

-- The unescaped text with the number of bytes read.
unfoldable pub unescape_colon : Bytes → Outcome (Bytes × ℕ)
unfolding unescape_count unescape_copy copied
unescape_colon s = unescape_count s >>= λ _. unescape_copy s
