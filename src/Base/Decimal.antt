-- ===== src/Base/Decimal.antt =====
-- Decimal numbers as libc prints and reads them: `%d`, `%ld`, `atol`, and `%ld` of `sscanf`.
pub mod Laws
use Prim.Native.Nat.{ℕ, zero, suc, ◌+◌, ◌-◌, ◌*◌, ◌/◌, ◌%◌, ◌^◌}
use mathlib.Core.Bool.{Bool, false, ◌&&◌, ◌||◌}
use mathlib.Core.List.{[], ◌∷◌}
use glite_jp.Base.Tests.{ltb, leb, ◌==◌, if◌then◌else◌}
use glite_jp.Base.Int.{ℤ, pos, negsuc, neg}
use glite_jp.Base.Text.{Bytes}

-- The decimal digits of `n` in front of `out`; the fuel bounds their number.
digits : ℕ → ℕ → Bytes → Bytes
digits zero n out = out
digits (suc f) n out =
    let rest = digits f (n / 10) ((b'0' + n % 10) ∷ out) in
    if ltb n 10 then (b'0' + n) ∷ out else rest

unfoldable pub print_nat : ℕ → Bytes
unfolding digits
print_nat n = digits (suc n) n []

-- `%ld`
unfoldable pub print_int : ℤ → Bytes
unfolding print_nat
print_int (pos n) = print_nat n
print_int (negsuc n) = b'-' ∷ print_nat (suc n)

abbrev pub is_digit : ℕ → Bool
is_digit c = leb b'0' c && leb c b'9'

-- `isspace` of the C locale
abbrev pub is_space : ℕ → Bool
is_space c = c == b' ' || (leb 9 c && leb c 13)

pub record Scan : Type 0 where
  pub number : ℤ
  pub rest : Bytes

scan_digits : ℕ → Bytes → ℕ × Bytes
scan_digits n [] = (n, [])
scan_digits n (c ∷ s) =
    let more = scan_digits (n * 10 + (c - b'0')) s in if is_digit c then more else (n, c ∷ s)

-- `strtol` stops at the bounds of a 64-bit long.
saturate : ℤ → ℤ
saturate (pos n) = if ltb n (2 ^ 63) then pos n else pos (2 ^ 63 - 1)
saturate (negsuc n) = if ltb n (2 ^ 63) then negsuc n else negsuc (2 ^ 63 - 1)

scan_unsigned : Bytes → Scan
unfolding scan_digits saturate
scan_unsigned s = let (n, r) = scan_digits 0 s in record { number = saturate (pos n); rest = r }

scan_negative : Bytes → Scan
unfolding scan_digits saturate
scan_negative s = let (n, r) = scan_digits 0 s in record { number = saturate (neg n); rest = r }

scan_sign : Bytes → Scan
unfolding scan_unsigned scan_negative
scan_sign [] = scan_unsigned []
scan_sign (c ∷ s) =
    if c == b'-'
    then scan_negative s
    else if c == b'+'
    then scan_unsigned s
    else scan_unsigned (c ∷ s)

unfoldable pub skip_space : Bytes → Bytes
skip_space [] = []
skip_space (c ∷ s) = let r = skip_space s in if is_space c then r else c ∷ s

-- `strtol(s, &rest, 10)`, for a text that begins with a number
unfoldable pub strtol : Bytes → Scan
unfolding scan_sign skip_space
strtol s = scan_sign (skip_space s)

-- `atol`
unfoldable pub atol : Bytes → ℤ
unfolding strtol
atol s = (strtol s).number

abbrev starts_digit : Bytes → Bool
starts_digit [] = false
starts_digit (c ∷ s) = is_digit c

-- whether `%ld` of `sscanf` matches, behind blanks
abbrev pub has_number : Bytes → Bool
has_number [] = false
has_number (c ∷ s) = is_digit c || ((c == b'-' || c == b'+') && starts_digit s)
