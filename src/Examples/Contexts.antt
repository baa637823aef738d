-- ===== src/Examples/Contexts.antt =====
-- The queue and the errors of a context, at concrete inputs.
use glite_jp.Base.{
  codes, ℕ, suc, ◌≤◌, [], ◌∷◌, none, some, false, ok, ◌≡◌, ◌≢◌, ◌↔◌, refl, length, arith,
}
use glite_jp.Base.Decimal.{print_nat}
use glite_jp.Context.{Context, run_deferred, error_chain}
use glite_jp.Context.Deferred.{Ends, run_deferred-Ends}
use glite_jp.Authz.{authz, getting_files}
use glite_jp.Authz.Policy.{Allowed, code_of, authz-Allowed}
use glite_jp.Context.Chain.{Returns, error_chain_depth}

-- a deferred call that counts itself in the context and returns its argument
abbrev count_call : ℕ → Context ℕ ℕ → ℕ × Context ℕ ℕ
count_call t c = (t, record c { world = suc c.world })

-- the second of three calls fails
abbrev queued : Context ℕ ℕ
queued = record {
  errors = [];
  deferred = 0 ∷ 5 ∷ 0 ∷ [];
  peer = none;
  trusted_peers = [];
  noauth = false;
  world = 0;
}

queue_filled : queued.deferred ≢ []
queue_filled = ground arith

run_deferred-Ends_example :
    (r : ℕ × Context ℕ ℕ) × (run_deferred count_call print_nat queued ≡ ok r)
    × Ends count_call (0 ∷ 5 ∷ 0 ∷ []) queued r
run_deferred-Ends_example = run_deferred-Ends count_call print_nat (λ t c. refl) queued queue_filled

abbrev failed : Context ℕ ℕ
failed = record queued { errors = record { code = 22; desc = none; source = none } ∷ [] }

error_chain_depth_example :
    Returns (error_chain print_nat failed)
    ↔ ((1 ≤ length failed.errors) × (length failed.errors ≤ 149))
error_chain_depth_example = error_chain_depth print_nat failed

abbrev signed_in : Context ℕ ℕ
signed_in = record queued { peer = some (codes "alice"); trusted_peers = codes "broker" ∷ [] }

authz-Allowed_example :
    (code_of (authz signed_in getting_files (some (codes "alice"))) ≡ ok 0)
    ↔ Allowed signed_in getting_files (codes "alice") (codes "alice")
authz-Allowed_example = authz-Allowed signed_in getting_files (codes "alice") (codes "alice") refl
