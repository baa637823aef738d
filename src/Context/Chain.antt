-- ===== src/Context/Chain.antt =====
-- How deep a chain of errors may be printed.
use glite_jp.Base.{
  ℕ, suc, ◌+◌, ◌*◌, ◌≤◌, ◌<◌, [], ◌∷◌, List, Bytes, Outcome, ok, ◌↔◌, arith, length,
}
use glite_jp.Types.{Error}
use glite_jp.Context.{Context, chain_from, chain_of, error_chain, indent_size}

-- it returns, with a text
abbrev pub Returns : {A : Type 0} → Outcome A → Type 0
Returns (ok a) = Unit
Returns _ = ⊥

chain-Returns :
    (strerror : ℕ → Bytes) (d : ℕ) (e : Error) (es : List Error)
    → Returns (chain_from strerror d e es) ↔ (2 * (d + suc (length es)) < indent_size)
unfolding chain_from
chain-Returns f d e [] = ground arith
chain-Returns f d e (e' ∷ es) = ground (arith, chain-Returns f (suc d) e' es)

chain_of-Returns :
    (f : ℕ → Bytes) (es : List Error)
    → Returns (chain_of f es) ↔ ((1 ≤ length es) × (length es ≤ 149))
chain_of-Returns f [] = ground arith
chain_of-Returns f (e ∷ es) = ground (arith, chain-Returns f 0 e es)

-- `error_chain` stays within its memory exactly when there is an error, and at most 149 of them
-- are stacked.
pub error_chain_depth :
    (strerror : ℕ → Bytes) {Task W : Type 0} (c : Context Task W)
    → Returns (error_chain strerror c) ↔ ((1 ≤ length c.errors) × (length c.errors ≤ 149))
error_chain_depth f c = unfold error_chain in chain_of-Returns f c.errors
