-- ===== src/Base/Act.antt =====
-- Calls that change a state: what they return, and the state after them. The changes that were made
-- before an error stay.
use Prim.Native.Nat.{ℕ}
use glite_jp.Base.Result.{Outcome, ok, err, fault}

abbrev pub Act {ℓ} : Type 0 → Type ℓ → Type ℓ
Act S A = S → Outcome A × S

module _ {S : Type 0} where
  abbrev pub after {ℓ κ} : {A : Type ℓ} {B : Type κ} → Outcome A × S → (A → Act S B) → Outcome B × S
  after (ok a, s) f = f a s
  after (err e, s) f = (err e, s)
  after (fault, s) f = (fault, s)

  infixl 5 ◌>>=◌ ◌>>◌
  abbrev pub ◌>>=◌ {ℓ κ} : {A : Type ℓ} {B : Type κ} → Act S A → (A → Act S B) → Act S B
  (m >>= f) s = after (m s) f

  abbrev pub ◌>>◌ {ℓ} : {B : Type ℓ} → Act S (Unit {0}) → Act S B → Act S B
  m >> k = m >>= λ _. k

  abbrev pub give {ℓ} : {A : Type ℓ} → A → Act S A
  give a s = (ok a, s)

  abbrev pub refuse {ℓ} : {A : Type ℓ} → ℕ → Act S A
  refuse e s = (err e, s)

  abbrev pub from {ℓ} : {A : Type ℓ} → Outcome A → Act S A
  from m s = (m, s)

-- A relation between the states before and after, which calls in sequence keep.
module _ {S : Type 0} (R : S → S → Type 0) where
  abbrev pub Keeps {ℓ} : {A : Type ℓ} → Act S A → Type 0
  Keeps m = (s : S) → R s (m s).1

  pub Keeps-bind {ℓ κ} :
      {A : Type ℓ} {B : Type κ} (m : Act S A) (f : A → Act S B)
      → ((s t u : S) → R s t → R t u → R s u)
      → Keeps m
      → ((a : A) → Keeps (f a))
      → Keeps (m >>= f)
  Keeps-bind m f trans h k s = go (m s) (h s)
    where
      go : (x : Outcome _ × S) → R s x.1 → R s (after x f).1
      go (ok a, t) p = trans s t (f a t).1 p (k a t)
      go (err e, t) p = p
      go (fault, t) p = p
