-- ===== src/Authz.antt =====
-- org.glite.jp.primary/src/authz.c: who may call which operation of the primary storage.
pub mod Policy
use glite_jp.Base.{
  ℕ, [], ◌∷◌, ◌++◌, Bytes, codes, same, Bool, true, false, not, ◌&&◌, Option, some, none,
  if◌then◌else◌, Outcome, ok, err, fault, ◌>>=◌, eperm, einval, List, ℤ,
}
use glite_jp.Base.Decimal.{print_int}
use glite_jp.Types.{Error}
use glite_jp.Context.{Context, stack_error, clear_error}

-- The numbers of the operations are generated: those that the code names, and any other.
pub data Operation : Type 0 where
  registering starting committing getting_files getting_attributes recording_tag : Operation
  other : ℤ → Operation

-- A peer that is a null pointer is compared with the first entry.
unfoldable pub is_trusted : List Bytes → Option Bytes → Outcome Bool
is_trusted [] peer = ok false
is_trusted (t ∷ ts) none = fault
is_trusted (t ∷ ts) (some p) = elim (same t p) [ true ↦ ok true | false ↦ is_trusted ts (some p) ]

abbrev authz_error : ℕ → Bytes → Error
authz_error code desc = record {
  code = code;
  desc = some desc;
  source = some (codes "glite_jpps_authz");
}

-- `!ctx->noauth && strcmp(owner, ctx->peer)`
abbrev pub is_stranger : Bool → Bytes → Option Bytes → Outcome Bool
is_stranger true owner peer = ok false
is_stranger false owner none = fault
is_stranger false owner (some p) = ok (not (same owner p))

module _ {Task W : Type 0} where
  abbrev pub for_trusted : Context Task W → Bool → ℕ × Context Task W
  for_trusted c trusted =
      if trusted
      then (0, c)
      else stack_error c (authz_error eperm (codes "you are not a trusted peer"))

  -- The owner's operations return 1 where they are refused.
  abbrev pub for_owner : Context Task W → Bool → ℕ × Context Task W
  for_owner c stranger =
      if stranger
      then (1, (stack_error c (authz_error eperm (codes "you are not a job owner"))).1)
      else (0, c)

  abbrev pub owner_rule : Context Task W → Option Bytes → Outcome (ℕ × Context Task W)
  owner_rule c none = fault
  owner_rule c (some owner) = do
    stranger ← is_stranger c.noauth owner c.peer
    ok (for_owner c stranger)

  abbrev pub trusted_rule : Context Task W → Outcome (ℕ × Context Task W)
  trusted_rule c = do trusted ← is_trusted c.trusted_peers c.peer; ok (for_trusted c trusted)

  abbrev pub rule : Context Task W → Operation → Option Bytes → Outcome (ℕ × Context Task W)
  rule c registering owner = trusted_rule c
  rule c starting owner = trusted_rule c
  rule c committing owner = trusted_rule c
  rule c getting_files owner = owner_rule c owner
  rule c getting_attributes owner = owner_rule c owner
  rule c recording_tag owner = owner_rule c owner
  rule c (other n) owner =
      ok (stack_error c (authz_error einval (print_int n ++ codes ": unknown operation")))

  -- `owner` may be a null pointer.
  unfoldable pub authz : Context Task W → Operation → Option Bytes → Outcome (ℕ × Context Task W)
  authz c op owner = rule (clear_error c) op owner
