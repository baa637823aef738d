-- ===== src/Authz/Policy.antt =====
-- `glite_jpps_authz` decides as the policy says.
use glite_jp.Base.{
  ℕ, [], ◌∷◌, Bytes, same, same_iff, Bool, true, false, Bool-cases, inl, inr, ◌⊎◌, ◌↔◌, Option,
  some, Outcome, ok, err, fault, ◌>>=◌, List, subst, ◌≡◌, refl, sym, arith,
}
use glite_jp.Context.{Context, stack_error, clear_error}
use glite_jp.Authz.{
  Operation, registering, starting, committing, getting_files, getting_attributes, recording_tag,
  other, is_trusted, authz, for_trusted, for_owner, trusted_rule, owner_rule, is_stranger,
}

abbrev pub Listed : Bytes → List Bytes → Type 0
Listed p [] = ⊥
Listed p (t ∷ ts) = (t ≡ p) ⊎ Listed p ts

-- The policy: the storage's own clients register and upload, and the owner reads and tags, or
-- anyone if authorization is switched off; nothing else is allowed.
pub Allowed : {Task W : Type 0} → Context Task W → Operation → Bytes → Bytes → Type 0
Allowed c registering owner peer = Listed peer c.trusted_peers
Allowed c starting owner peer = Listed peer c.trusted_peers
Allowed c committing owner peer = Listed peer c.trusted_peers
Allowed c getting_files owner peer = (c.noauth ≡ true) ⊎ (owner ≡ peer)
Allowed c getting_attributes owner peer = (c.noauth ≡ true) ⊎ (owner ≡ peer)
Allowed c recording_tag owner peer = (c.noauth ≡ true) ⊎ (owner ≡ peer)
Allowed c (other n) owner peer = ⊥

-- the code that a call returns
abbrev pub code_of : {A : Type 0} → Outcome (ℕ × A) → Outcome ℕ
code_of (ok (code, a)) = ok code
code_of (err e) = err e
code_of fault = fault

is_trusted-Listed :
    (p : Bytes) (ts : List Bytes)
    → (b : Bool) × (is_trusted ts (some p) ≡ ok b) × ((b ≡ true) ↔ Listed p ts)
unfolding is_trusted
is_trusted-Listed p [] = (false, refl, ((λ e. absurd (ground arith)), λ l. absurd l))
is_trusted-Listed p (t ∷ ts) =
    let (b, e, i) = is_trusted-Listed p ts in
    elim (Bool-cases (same t p)) [
      | inl q ↦ (true, (rw (q, is_trusted) refl), ((λ h. inl ((same_iff t p).0 q)), λ l. refl))
      | inr q ↦
          (b, (rw (q, is_trusted) e), ((λ h. inr (i.0 h)), λ l. behind t p ts q l (λ m. i.1 m)))
    ]
  where
    behind :
        {b : Bool} (t p : Bytes) (ts : List Bytes)
        → same t p ≡ false
        → (t ≡ p) ⊎ Listed p ts
        → (Listed p ts → b ≡ true)
        → b ≡ true
    behind t p ts q (inl e) f = absurd (cc ((same_iff t p).1 e))
    behind t p ts q (inr l) f = f l

module _ {Task W : Type 0} (c : Context Task W) (peer : Bytes) where
  trusted_rule-Listed :
      c.peer ≡ some peer → (code_of (trusted_rule c) ≡ ok 0) ↔ Listed peer c.trusted_peers
  unfolding stack_error
  trusted_rule-Listed h =
      let (b, e, i) = is_trusted-Listed peer c.trusted_peers in
      subst
        (λ (o : Option Bytes).
          (code_of (is_trusted c.trusted_peers o >>= λ t. ok (for_trusted c t)) ≡ ok 0)
          ↔ Listed peer c.trusted_peers)
        (sym h)
        (subst
          (λ (o : Outcome Bool).
            (code_of (o >>= λ t. ok (for_trusted c t)) ≡ ok 0) ↔ Listed peer c.trusted_peers)
          (sym e) (decided b i))
    where
      decided :
          (b : Bool)
          → ((b ≡ true) ↔ Listed peer c.trusted_peers)
          → (code_of (ok (for_trusted c b)) ≡ ok 0) ↔ Listed peer c.trusted_peers
      decided true i = (λ e. i.0 refl, λ l. refl)
      decided false i = (λ e. absurd (ground arith), λ l. absurd (cc (i.1 l)))

  owner_rule-owner :
      (owner : Bytes)
      → c.peer ≡ some peer
      → (code_of (owner_rule c (some owner)) ≡ ok 0) ↔ ((c.noauth ≡ true) ⊎ (owner ≡ peer))
  owner_rule-owner owner h =
      subst
        (λ (o : Option Bytes).
          (code_of (is_stranger c.noauth owner o >>= λ s. ok (for_owner c s)) ≡ ok 0)
          ↔ ((c.noauth ≡ true) ⊎ (owner ≡ peer)))
        (sym h) (decided c.noauth)
    where
      decided :
          (b : Bool)
          → (code_of (is_stranger b owner (some peer) >>= λ s. ok (for_owner c s)) ≡ ok 0)
            ↔ ((b ≡ true) ⊎ (owner ≡ peer))
      decided true = (λ _. inl refl, λ _. refl)
      decided false = elim (Bool-cases (same owner peer)) [
        | inl q ↦ rw q (λ _. inr ((same_iff owner peer).0 q), λ _. refl)
        | inr q ↦
            rw q (λ k. absurd (ground arith), λ l. absurd (ground (arith, same_iff owner peer)))
      ]

-- For a client that has a name, and an owner, `glite_jpps_authz` returns 0 exactly where the policy
-- allows the operation, whatever errors the context held.
pub authz-Allowed :
    {Task W : Type 0} (c : Context Task W) (op : Operation) (owner peer : Bytes)
    → c.peer ≡ some peer
    → (code_of (authz c op (some owner)) ≡ ok 0) ↔ Allowed c op owner peer
unfolding authz Allowed clear_error
authz-Allowed c registering owner peer h = trusted_rule-Listed (clear_error c) peer h
authz-Allowed c starting owner peer h = trusted_rule-Listed (clear_error c) peer h
authz-Allowed c committing owner peer h = trusted_rule-Listed (clear_error c) peer h
authz-Allowed c getting_files owner peer h = owner_rule-owner (clear_error c) peer owner h
authz-Allowed c getting_attributes owner peer h = owner_rule-owner (clear_error c) peer owner h
authz-Allowed c recording_tag owner peer h = owner_rule-owner (clear_error c) peer owner h
authz-Allowed c (other n) owner peer h =
    unfold stack_error in (λ e. absurd (ground arith), λ l. absurd l)
