-- ===== src/Context/Deferred.antt =====
-- `run_deferred` runs the queue in order, and keeps what it could not finish.
use glite_jp.Base.{
  ℕ, suc, ◌≡◌, ◌≢◌, refl, ap, ◌∙◌, arith, List, [], ◌∷◌, Bytes, ◌==◌, if◌then◌else◌, Bool-cases,
  inl, inr, ok, length, take, drop, append-nil,
}
use glite_jp.Types.{Error}
use glite_jp.Context.{
  Context, stack_error, clear_error, shift, deferred_error, call_first, run_counted, next_round,
  run_loop, run_deferred,
}

take_more {ℓ} : {A : Type ℓ} (xs : List A) → take (suc (length xs)) xs ≡ xs
take_more [] = refl
take_more (x ∷ xs) = ap (λ t. x ∷ t) (take_more xs)

drop_all {ℓ} : {A : Type ℓ} (xs : List A) → drop (length xs) xs ≡ []
drop_all [] = refl
drop_all (x ∷ xs) = drop_all xs

-- On a whole queue the move removes the first entry.
shift_all : {Task : Type 0} (t : Task) (q : List Task) → shift (suc (length q)) (t ∷ q) ≡ q
shift_all t q = rw (take_more q, drop_all q) (append-nil q)

-- From the state `c` the calls at the front of the queue are made, each with success and on the state
-- that the one before it left, until the queue `rest` and the state `d` are left.
pub data Made {Task W : Type 0} (call : Task → Context Task W → ℕ × Context Task W)
    : List Task → Context Task W → List Task → Context Task W → Type 0 where
  none_made : (q : List Task) (c : Context Task W) → Made call q c q c
  one_made :
      (t : Task) (q rest : List Task) (c d : Context Task W)
      → (call t c).0 ≡ 0
      → Made call q (record ((call t c).1) { deferred = q }) rest d
      → Made call (t ∷ q) c rest d

-- How a run of the queue `q` from `c` may end: all calls were made and the queue is empty, or the
-- calls before `t` were made, and `t` failed: its code is returned, its error is the latest of the
-- chain, all else is as it left it, and it is the first of the queue.
pub data Ends {Task W : Type 0} (call : Task → Context Task W → ℕ × Context Task W) (q : List Task)
    (c : Context Task W) (r : ℕ × Context Task W) : Type 0 where
  done :
      (d : Context Task W)
      → Made call q c [] d
      → r ≡ (0, record d { deferred = [] })
      → Ends call q c r
  stopped :
      (t : Task) (rest : List Task) (d : Context Task W)
      → Made call q c (t ∷ rest) d
      → (call t d).0 ≢ 0
      → r.0 ≡ (call t d).0
      → (e : Error) → e.code ≡ (call t d).0
      → r.1 ≡ record ((call t d).1) { errors = e ∷ (call t d).1.errors }
      → r.1.deferred ≡ t ∷ rest
      → Ends call q c r

module _ {Task W : Type 0} (call : Task → Context Task W → ℕ × Context Task W)
    (address : Task → Bytes) where
  -- The specification: the calls are made in order until one fails; a failed call stays first in
  -- the queue, before those that were not made.
  pub run_all : ℕ → List Task → Context Task W → ℕ × Context Task W
  run_all i [] c = (0, record c { deferred = [] })
  run_all i (t ∷ q) c =
      let (ret, d) = call t c in
      let rest = run_all (suc i) q (record d { deferred = q }) in
      if ret == 0 then rest else stack_error d (deferred_error (address t) i ret)

  module _ (steady : (t : Task) (c : Context Task W) → (call t c).1.deferred ≡ c.deferred) where
    -- after a call that succeeds the queue is what was behind it
    moved :
        (t : Task) (q : List Task) (c : Context Task W)
        → c.deferred ≡ t ∷ q
        → shift (suc (length q)) (call t c).1.deferred ≡ q
    moved t q c e =
        ap (λ (l : List Task). shift (suc (length q)) l) (steady t c ∙ e) ∙ shift_all t q

    round_all :
        (t : Task) (q : List Task) (i : ℕ) (c : Context Task W) (r : ℕ × Context Task W)
        → shift (suc (length q)) r.1.deferred ≡ q
        → run_loop call address (suc i) (length q) (record (r.1) { deferred = q })
          ≡ ok (run_all (suc i) q (record (r.1) { deferred = q }))
        → next_round call address i (length q) t r (λ d. run_loop call address (suc i) (length q) d)
          ≡ ok (
              if r.0 == 0
              then run_all (suc i) q (record (r.1) { deferred = q })
              else stack_error (r.1) (deferred_error (address t) i r.0))
    round_all t q i c (ret, d) e h = elim (Bool-cases (ret == 0)) [
      | inl p ↦ rw p (
          ap
            (λ (l : List Task).
              run_loop call address (suc i) (length q) (record d { deferred = l }))
            e
          ∙ h)
      | inr p ↦ rw p
    ]

    loop_all :
        (q : List Task) (i : ℕ) (c : Context Task W)
        → c.deferred ≡ q
        → run_loop call address i (length q) c ≡ ok (run_all i q c)
    unfolding run_loop run_all
    loop_all [] i c e = refl
    loop_all (t ∷ q) i c e =
        ap
          (λ (l : List Task).
            call_first call address i (length q) l c
              (λ d. run_loop call address (suc i) (length q) d))
          e
        ∙ round_all t q i c (call t c) (moved t q c e)
            (loop_all q (suc i) (record ((call t c).1) { deferred = q }) refl)

    counted_all :
        (q : List Task) (c : Context Task W)
        → c.deferred ≡ q
        → q ≢ []
        → run_counted call address q c ≡ ok (run_all 0 q (clear_error c))
    counted_all [] c e h = absurd (h refl)
    counted_all (t ∷ q) c e h = loop_all (t ∷ q) 0 (clear_error c) (unfold clear_error in e)

    -- If the calls leave the queue alone, `run_deferred` clears the errors and then does what
    -- `run_all` says, and it never reads past the queue.
    pub run_deferred-all :
        (c : Context Task W)
        → c.deferred ≢ []
        → run_deferred call address c ≡ ok (run_all 0 c.deferred (clear_error c))
    unfolding run_deferred
    run_deferred-all c h = counted_all c.deferred c refl h

    Ends-cons :
        (t : Task) (q : List Task) (c : Context Task W) (r : ℕ × Context Task W)
        → (call t c).0 ≡ 0
        → Ends call q (record ((call t c).1) { deferred = q }) r
        → Ends call (t ∷ q) c r
    Ends-cons t q c r z (done d m e) = done d (one_made t q [] c d z m) e
    Ends-cons t q c r z (stopped u rest d m n p e k x y) =
        stopped u rest d (one_made t q (u ∷ rest) c d z m) n p e k x y

    Ends-round :
        (t : Task) (q : List Task) (i : ℕ) (c : Context Task W) (r : ℕ × Context Task W)
        → c.deferred ≡ t ∷ q
        → Ends call q (record ((call t c).1) { deferred = q }) r
        → Ends call (t ∷ q) c (
            if (call t c).0 == 0
            then r
            else stack_error (call t c).1 (deferred_error (address t) i (call t c).0))
    unfolding stack_error
    Ends-round t q i c r e h = elim (Bool-cases ((call t c).0 == 0)) [
      | inl p ↦ rw p (Ends-cons t q c r (ground arith) h)
      | inr p ↦ rw p (
          stopped t q c (none_made (t ∷ q) c) (ground arith) refl
            (deferred_error (address t) i (call t c).0) refl refl (steady t c ∙ e))
    ]

    run_all-Ends :
        (q : List Task) (i : ℕ) (c : Context Task W)
        → c.deferred ≡ q
        → Ends call q c (run_all i q c)
    unfolding run_all
    run_all-Ends [] i c e = done c (none_made [] c) refl
    run_all-Ends (t ∷ q) i c e =
        Ends-round t q i c _ e
          (run_all-Ends q (suc i) (record ((call t c).1) { deferred = q }) refl)

    -- If the calls leave the queue alone, `run_deferred` returns. It clears the errors and makes the
    -- calls of the queue in their order, each on the state that the one before left, until one returns
    -- another code than 0. If none does, it returns 0 and the queue is empty; else it returns the code
    -- of that call, with an error of this code as the latest of the chain, and with that call and those
    -- behind it still queued.
    pub run_deferred-Ends :
        (c : Context Task W)
        → c.deferred ≢ []
        → (r : ℕ × Context Task W) × (run_deferred call address c ≡ ok r)
          × Ends call c.deferred (record c { errors = [] }) r
    unfolding clear_error
    run_deferred-Ends c h = (
      run_all 0 c.deferred (clear_error c),
      run_deferred-all c h,
      run_all-Ends c.deferred 0 (clear_error c) refl,
    )
