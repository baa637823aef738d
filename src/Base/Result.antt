-- ===== src/Base/Result.antt =====
-- What a C function does: it returns a value, it returns an error code, or it leaves the memory
-- that it owns (a read past the end of a buffer, a failed assert, an abort).
use Prim.Native.Nat.{ℕ}
use mathlib.Core.Bool.{Bool, true, false}
use mathlib.Core.Path.{◌≡◌, refl}

pub data Outcome {ℓ} (A : Type ℓ) : Type ℓ where
  ok : A → Outcome A
  err : ℕ → Outcome A
  fault : Outcome A

infixl 5 ◌>>=◌ ◌>>◌
abbrev pub ◌>>=◌ {ℓ κ} : {A : Type ℓ} {B : Type κ} → Outcome A → (A → Outcome B) → Outcome B
ok a >>= f = f a
err e >>= f = err e
fault >>= f = fault

abbrev pub ◌>>◌ {ℓ} : {B : Type ℓ} → Outcome (Unit {0}) → Outcome B → Outcome B
m >> k = m >>= λ _. k

-- A bind that gives a value: what its first call gave, and what the rest made of it.
pub parts_of {ℓ κ} :
    {A : Type ℓ} {B : Type κ} {b : B} {f : A → Outcome B} (m : Outcome A)
    → (m >>= f) ≡ ok b
    → (a : A) × (f a ≡ ok b) × (m ≡ ok a)
parts_of fault e = cc
parts_of (err n) e = cc
parts_of (ok a) e = (a, e, refl)

-- `if (!test) return code;`
abbrev pub require : Bool → ℕ → Outcome (Unit {0})
require true e = ok tt
require false e = err e

-- The error numbers of Linux that the source names.
abbrev pub eperm : ℕ
eperm = 1

abbrev pub enoent : ℕ
enoent = 2

abbrev pub eio : ℕ
eio = 5

abbrev pub eexist : ℕ
eexist = 17

abbrev pub einval : ℕ
einval = 22
