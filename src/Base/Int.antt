-- ===== src/Base/Int.antt =====
-- C's signed integers. A `long` or a `time_t` is an integer; its conversion to a 32-bit `int` and
-- the bounds of 64 bits are written out.
use Prim.Native.Nat.{ℕ, ◌-◌, ◌%◌, ◌^◌, ◌<◌}
use mathlib.Core.Bool.{Bool, true, false}
use mathlib.Core.Path.{◌≡◌}
use native.Mathlib.Omega.{arith}
use glite_jp.Base.Tests.{ltb, if◌then◌else◌}

-- `negsuc n` is -(n + 1).
pub data ℤ : Type 0 where
  pos : ℕ → ℤ
  negsuc : ℕ → ℤ

-- -n
abbrev pub neg : ℕ → ℤ
neg n = if ltb 0 n then negsuc (n - 1) else pos 0

abbrev pub is_neg : ℤ → Bool
is_neg (pos n) = false
is_neg (negsuc n) = true

-- Bounds of the numbers with `w + 1` bits.
abbrev pub Fits : ℕ → ℤ → Type 0
Fits w (pos n) = n < 2 ^ w
Fits w (negsuc n) = n < 2 ^ w

-- What `%d` prints of a 64-bit argument: the low 32 bits, read as a signed number.
unfoldable pub wrap32 : ℤ → ℤ
wrap32 (pos n) = let u = n % 2 ^ 32 in if ltb u (2 ^ 31) then pos u else negsuc (2 ^ 32 - 1 - u)
wrap32 (negsuc n) = let u = n % 2 ^ 32 in if ltb u (2 ^ 31) then negsuc u else pos (2 ^ 32 - 1 - u)

pub wrap32-Fits : (t : ℤ) → Fits 31 (wrap32 t)
unfolding wrap32
wrap32-Fits (pos n) = ground arith
wrap32-Fits (negsuc n) = ground arith

pub wrap32_self : (t : ℤ) → Fits 31 t → wrap32 t ≡ t
unfolding wrap32
wrap32_self (pos n) h = ground arith
wrap32_self (negsuc n) h = ground arith
