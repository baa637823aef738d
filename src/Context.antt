-- ===== src/Context.antt =====
-- org.glite.jp.common/src/context.c: the context that every call passes on, with its chain of
-- errors and its queue of deferred calls.
pub mod Deferred
pub mod Chain
use glite_jp.Base.{
  ℕ, zero, suc, ◌-◌, ◌*◌, List, [], ◌∷◌, ◌++◌, Bytes, codes, Bool, Option, some, none, ltb, leb,
  ◌==◌, if◌then◌else◌, true, false, Outcome, ok, err, fault, ◌>>=◌, take, drop, length,
}
use glite_jp.Base.Decimal.{print_nat}
use glite_jp.Types.{Error}

-- glite_jp_context_t. `W` is what lies behind the pointers that context.c does not follow: the
-- database, the feeds and the plugins. A null queue is the empty list.
pub record Context (Task W : Type 0) : Type 0 where
  pub errors : List Error
  pub deferred : List Task
  pub peer : Option Bytes
  pub trusted_peers : List Bytes
  pub noauth : Bool
  pub world : W

module _ {Task W : Type 0} where
  unfoldable pub stack_error : Context Task W → Error → ℕ × Context Task W
  stack_error c e = (e.code, record c { errors = e ∷ c.errors })

  unfoldable pub clear_error : Context Task W → Context Task W
  clear_error c = record c { errors = [] }

  unfoldable pub peer_name : Context Task W → Bytes
  peer_name c = elim c.peer [ some p ↦ p | none ↦ codes "unknown" ]

  pub add_deferred : Context Task W → Task → Context Task W
  add_deferred c t = record c { deferred = c.deferred ++ t ∷ [] }

-- `memmove(q, q + 1, n * sizeof *q)` on an array that ends with a null pointer
abbrev pub shift : {Task : Type 0} → ℕ → List Task → List Task
shift n q = take n (drop 1 q) ++ drop n q

-- The error that a failed deferred call stacks; `address` prints its function pointer.
abbrev pub deferred_error : Bytes → ℕ → ℕ → Error
deferred_error address i ret = record {
  code = ret;
  desc = some (codes "calling func #" ++ print_nat i ++ codes ", " ++ address);
  source = some (codes "glite_jp_run_deferred()");
}

-- `call` is the call through the function pointer: it may change the whole context.
module _ {Task W : Type 0} (call : Task → Context Task W → ℕ × Context Task W)
    (address : Task → Bytes) where
  -- one round: the first entry of the queue is called, and removed if it succeeds
  abbrev pub next_round :
      ℕ
      → ℕ
      → Task
      → ℕ × Context Task W
      → (Context Task W → Outcome (ℕ × Context Task W))
      → Outcome (ℕ × Context Task W)
  next_round i k t (ret, c) go =
      if ret == 0
      then go (record c { deferred = shift (suc k) c.deferred })
      else ok (stack_error c (deferred_error (address t) i ret))

  -- `(*ctx->deferred_func)(ctx, *ctx->deferred_arg)` reads the first entry.
  abbrev pub call_first :
      ℕ
      → ℕ
      → List Task
      → Context Task W
      → (Context Task W → Outcome (ℕ × Context Task W))
      → Outcome (ℕ × Context Task W)
  call_first i k [] c go = fault
  call_first i k (t ∷ q) c go = next_round i k t (call t c) go

  -- `k` entries are left of those that were counted before the loop.
  pub run_loop : ℕ → ℕ → Context Task W → Outcome (ℕ × Context Task W)
  run_loop i zero c = ok (0, record c { deferred = [] })
  run_loop i (suc k) c = call_first i k c.deferred c (λ d. run_loop (suc i) k d)

  -- `if (!ctx->deferred_func) return 0;`
  abbrev pub run_counted : List Task → Context Task W → Outcome (ℕ × Context Task W)
  run_counted [] c = ok (0, c)
  run_counted (t ∷ q) c = run_loop 0 (length (t ∷ q)) (clear_error c)

  pub run_deferred : Context Task W → Outcome (ℕ × Context Task W)
  unfolding run_loop
  run_deferred c = run_counted c.deferred c

-- `indent` has room for 300 bytes: the NUL and 149 levels of two blanks.
abbrev pub indent_size : ℕ
indent_size = 300

abbrev pub line_size : ℕ
line_size = 2000

abbrev pub blanks : ℕ → Bytes
blanks zero = []
blanks (suc d) = b' ' ∷ b' ' ∷ blanks d

-- `%s` of a pointer that may be null
abbrev pub text_of : Bytes → Option Bytes → Bytes
text_of null (some s) = s
text_of null none = null

module _ (strerror : ℕ → Bytes) where
  -- `%s%s: %s (%s)\n`
  unfoldable pub error_line : ℕ → Error → Bytes
  error_line d e =
      blanks d
      ++ (text_of (codes "(null)") e.source
          ++ (codes ": "
              ++ (strerror e.code ++ (codes " (" ++ (text_of [] e.desc ++ codes ")\n")))))

  -- A line that is cut to the buffer ends the text: zeros are copied behind it.
  abbrev pub join_lines : Bytes → Bytes → Bytes
  join_lines l rest = if ltb (length l) line_size then l ++ rest else take (line_size - 1) l

  -- `strcat(indent, "  ")` after each level
  pub chain_from : ℕ → Error → List Error → Outcome Bytes
  chain_from d e [] =
      if leb indent_size (2 * suc d) then fault else ok (join_lines (error_line d e) [])
  chain_from d e (e' ∷ es) = do
    rest ← chain_from (suc d) e' es
    if leb indent_size (2 * suc d) then fault else ok (join_lines (error_line d e) rest)

  -- The chain is read without a test for an empty one.
  abbrev pub chain_of : List Error → Outcome Bytes
  chain_of [] = fault
  chain_of (e ∷ es) = chain_from 0 e es

  unfoldable pub error_chain : {Task W : Type 0} → Context Task W → Outcome Bytes
  unfolding chain_from
  error_chain c = chain_of c.errors
