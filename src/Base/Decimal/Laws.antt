-- ===== src/Base/Decimal/Laws.antt =====
-- Reading a printed number gives it back, and a printed 32-bit number is short.
use Prim.Native.Nat.{ℕ, zero, suc, ◌+◌, ◌*◌, ◌/◌, ◌%◌, ◌^◌, ◌≤◌, ◌<◌}
use mathlib.Core.Bool.{true, false}
use mathlib.Core.List.{[], ◌∷◌, ◌++◌}
use mathlib.Core.Path.{◌≡◌, refl, ap}
use native.Mathlib.Omega.{arith}
use native.Mathlib.Nat.{pow-suc}
use glite_jp.Base.Int.{ℤ, pos, negsuc, Fits}
use glite_jp.Base.Text.{Bytes}
use glite_jp.Base.Lists.{All, length}
use glite_jp.Base.Tests.{ltb, Bool-cases}
use mathlib.Core.Logic.{inl, inr}
use glite_jp.Base.Decimal.{
  digits, print_nat, print_int, is_digit, Scan, scan_digits, saturate, scan_unsigned, scan_negative,
  strtol, atol, skip_space, has_number,
}

-- No further digit follows.
abbrev pub Stops : Bytes → Type 0
Stops [] = Unit
Stops (c ∷ s) = is_digit c ≡ false

-- A digit comes first.
abbrev Starts : Bytes → Type 0
Starts [] = ⊥
Starts (c ∷ s) = (48 ≤ c) × (c ≤ 57)

digits-append : (f n : ℕ) (out r : Bytes) → digits f n out ++ r ≡ digits f n (out ++ r)
unfolding digits
digits-append zero n out r = refl
digits-append (suc f) n out r = ground (arith, digits-append f (n / 10) ((48 + n % 10) ∷ out) r)

digits-Starts : (f n : ℕ) (out : Bytes) → n < f → Starts (digits f n out)
unfolding digits
digits-Starts zero n out h = elim h [ ]
digits-Starts (suc f) n out h = ground (arith, digits-Starts f (n / 10) ((48 + n % 10) ∷ out))

scan_digit :
    (m c : ℕ) (s : Bytes) → c < 10 → scan_digits m ((48 + c) ∷ s) ≡ scan_digits (m * 10 + c) s
unfolding scan_digits
scan_digit m c s h = ground arith

scan-digits : (f n : ℕ) (out : Bytes) → n < f → scan_digits 0 (digits f n out) ≡ scan_digits n out
unfolding digits
scan-digits zero n out h = elim h [ ]
scan-digits (suc f) n out h = ground (
  arith,
  scan-digits f (n / 10) ((48 + n % 10) ∷ out),
  scan_digit 0 n out,
  scan_digit (n / 10) (n % 10) out,
)

scan-Stops : (n : ℕ) (r : Bytes) → Stops r → scan_digits n r ≡ (n, r)
unfolding scan_digits
scan-Stops n [] h = refl
scan-Stops n (c ∷ s) h = ground arith

scan-print : (n : ℕ) (r : Bytes) → Stops r → scan_digits 0 (print_nat n ++ r) ≡ (n, r)
unfolding print_nat
scan-print n r h =
    rw (digits-append (suc n) n [] r, scan-digits (suc n) n r (omega arith)) (scan-Stops n r h)

print-Starts : (n : ℕ) (r : Bytes) → Starts (print_nat n ++ r)
unfolding print_nat
print-Starts n r = rw (digits-append (suc n) n [] r) (digits-Starts (suc n) n r (omega arith))

strtol_unsigned : (s : Bytes) → Starts s → strtol s ≡ scan_unsigned s
unfolding strtol
strtol_unsigned [] h = absurd h
strtol_unsigned (c ∷ s) h = ground arith

-- Reading what `%ld` printed gives the number, and leaves what followed it.
pub strtol-print_int :
    (t : ℤ) (r : Bytes)
    → Fits 63 t
    → Stops r
    → strtol (print_int t ++ r) ≡ record { number = t; rest = r }
strtol-print_int (pos n) r h s =
    unfold print_int in
    rw (strtol_unsigned _ (print-Starts n r))
      (unfold scan_unsigned saturate in rw (scan-print n r s) (ground arith))
strtol-print_int (negsuc n) r h s =
    unfold print_int strtol scan_negative saturate in rw (scan-print (suc n) r s) (ground arith)

-- `atol` stops at the first byte that is no digit.
pub atol-print_int : (t : ℤ) (r : Bytes) → Fits 63 t → Stops r → atol (print_int t ++ r) ≡ t
unfolding atol
atol-print_int t r h s = ap (λ (x : Scan). x.number) (strtol-print_int t r h s)

length-digits :
    (f n k : ℕ) (out : Bytes) → n < 10 ^ suc k → length (digits f n out) ≤ suc k + length out
unfolding digits
length-digits zero n k out h = omega arith
length-digits (suc f) n zero out h = ground arith
length-digits (suc f) n (suc k) out h =
    ground
      (arith, length-digits f (n / 10) k ((48 + n % 10) ∷ out) (omega (arith, pow-suc 10 (suc k))))

-- A 32-bit number takes at most eleven bytes.
pub length-print_int : (t : ℤ) → Fits 31 t → length (print_int t) ≤ 11
unfolding print_int print_nat
length-print_int (pos n) h = omega (arith, length-digits (suc n) n 9 [])
length-print_int (negsuc n) h = omega (arith, length-digits (suc (suc n)) (suc n) 9 [])

digits-below : (f n : ℕ) (out : Bytes) → All (λ c. c < 58) out → All (λ c. c < 58) (digits f n out)
unfolding digits
digits-below zero n out h = h
digits-below (suc f) n out h = elim (Bool-cases (ltb n 10)) [
  | inl e ↦ rw e (ground arith)
  | inr e ↦ rw e (digits-below f (n / 10) ((48 + n % 10) ∷ out) (omega arith, h))
]

-- A printed number has digits and a sign, and no colon.
pub print_int-below : (t : ℤ) → All (λ c. c < 58) (print_int t)
unfolding print_int print_nat
print_int-below (pos n) = digits-below (suc n) n [] tt
print_int-below (negsuc n) = (omega arith, digits-below (suc (suc n)) (suc n) [] tt)

digits-above : (f n : ℕ) (out : Bytes) → All (λ c. 0 < c) out → All (λ c. 0 < c) (digits f n out)
unfolding digits
digits-above zero n out h = h
digits-above (suc f) n out h = elim (Bool-cases (ltb n 10)) [
  | inl e ↦ rw e (omega arith, h)
  | inr e ↦ rw e (digits-above f (n / 10) ((48 + n % 10) ∷ out) (omega arith, h))
]

-- A printed number holds no NUL.
pub print_int-above : (t : ℤ) → All (λ c. 0 < c) (print_int t)
unfolding print_int print_nat
print_int-above (pos n) = digits-above (suc n) n [] tt
print_int-above (negsuc n) = (omega arith, digits-above (suc (suc n)) (suc n) [] tt)

digit_first :
    (s : Bytes)
    → Starts s
    → (skip_space s ≡ s) × (has_number s ≡ true) × (has_number (b'-' ∷ s) ≡ true)
unfolding skip_space
digit_first [] h = absurd h
digit_first (c ∷ s) h = ground arith

-- A printed number is found where it stands.
pub number-print_int :
    (t : ℤ) (r : Bytes)
    → (skip_space (print_int t ++ r) ≡ print_int t ++ r) × (has_number (print_int t ++ r) ≡ true)
unfolding print_int
number-print_int (pos n) r = let d = digit_first (print_nat n ++ r) (print-Starts n r) in (d.0, d.1)
number-print_int (negsuc n) r =
    ((unfold skip_space in refl), (digit_first (print_nat (suc n) ++ r) (print-Starts (suc n) r)).2)
