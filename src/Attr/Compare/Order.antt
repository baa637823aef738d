-- ===== src/Attr/Compare/Order.antt =====
-- `fb_cmp` is a total order on the values of one kind.
use glite_jp.Base.{
  ℕ, suc, true, Ordering, strcmp, strcmp_refl, length, Outcome, ok, err, fault, einval, Bytes, ◌≡◌,
  ◌≢◌, ◌↔◌, refl, sym, ap, ◌∙◌, inl, inr, Bool-cases, arith, [], ◌∷◌, eq_of_strcmp,
}
use glite_jp.Types.{AttrVal}
use glite_jp.Attr.Compare.{fb_cmp, by_size, memcmp_sized, min_of}

-- The bytes of a binary value are as many as its size says.
abbrev pub IsSized : AttrVal → Type 0
IsSized a = a.binary ≡ true → length a.value ≡ a.size

abbrev pub flip : Ordering → Ordering
flip Ordering.lt = Ordering.gt
flip Ordering.eq = Ordering.eq
flip Ordering.gt = Ordering.lt

strcmp-flip : (a b : Bytes) → strcmp b a ≡ flip (strcmp a b)
unfolding strcmp
strcmp-flip [] [] = refl
strcmp-flip [] (y ∷ b) = refl
strcmp-flip (x ∷ a) [] = refl
strcmp-flip (x ∷ a) (y ∷ b) = ground (arith, strcmp-flip a b)

strcmp_trans :
    (a b c : Bytes) → strcmp a b ≢ Ordering.gt → strcmp b c ≢ Ordering.gt → strcmp a c ≢ Ordering.gt
unfolding strcmp
strcmp_trans [] b [] h k = ground arith
strcmp_trans [] b (z ∷ c) h k = ground arith
strcmp_trans (x ∷ a) [] c h k = absurd (h refl)
strcmp_trans (x ∷ a) (y ∷ b) [] h k = absurd (k refl)
strcmp_trans (x ∷ a) (y ∷ b) (z ∷ c) h k = ground (arith, strcmp_trans a b c)

min_of-suc : (n m : ℕ) → min_of (suc n) (suc m) ≡ suc (min_of n m)
min_of-suc n m = ground arith

by_size-suc : (n m : ℕ) (o : Ordering) → by_size (suc n) (suc m) o ≡ by_size n m o
unfolding by_size
by_size-suc n m Ordering.eq = ground arith
by_size-suc n m Ordering.lt = refl
by_size-suc n m Ordering.gt = refl

by_size_head :
    (n m x y : ℕ) (a b c d : Bytes)
    → by_size n m (strcmp a b) ≡ strcmp c d
    → by_size n m (strcmp (x ∷ a) (y ∷ b)) ≡ strcmp (x ∷ c) (y ∷ d)
unfolding by_size strcmp
by_size_head n m x y a b c d h = ground arith

memcmp_head :
    (n m x y : ℕ) (a b : Bytes)
    → memcmp_sized n m a b ≡ strcmp a b
    → memcmp_sized (suc n) (suc m) (x ∷ a) (y ∷ b) ≡ strcmp (x ∷ a) (y ∷ b)
unfolding memcmp_sized
memcmp_head n m x y a b h = rw (min_of-suc n m, by_size-suc) (by_size_head n m x y _ _ a b h)

memcmp_strcmp : (a b : Bytes) → memcmp_sized (length a) (length b) a b ≡ strcmp a b
memcmp_strcmp [] [] = unfold memcmp_sized by_size strcmp in refl
memcmp_strcmp [] (y ∷ b) = unfold memcmp_sized by_size strcmp in ground arith
memcmp_strcmp (x ∷ a) [] = unfold memcmp_sized by_size strcmp in ground arith
memcmp_strcmp (x ∷ a) (y ∷ b) = memcmp_head (length a) (length b) x y a b (memcmp_strcmp a b)

-- On two values of one kind, with sizes that are right, `fb_cmp` is the byte-wise lexicographic
-- order: comparing the common size first and the sizes second is the order on the whole values.
pub fb_cmp-strcmp :
    (a b : AttrVal)
    → IsSized a
    → IsSized b
    → a.binary ≡ b.binary
    → fb_cmp a b ≡ ok (strcmp a.value b.value)
unfolding fb_cmp
fb_cmp-strcmp a b ha hb e = elim (Bool-cases a.binary) [
  | inl t ↦ rw (← e, t, ← ha t, ← hb (sym e ∙ t), memcmp_strcmp a.value b.value)
  | inr f ↦ rw (← e, f)
]

abbrev pub reversed : Outcome Ordering → Outcome Ordering
reversed (ok o) = ok (flip o)
reversed (err e) = err e
reversed fault = fault

-- Two values of one kind, with sizes that are right, are equal for `fb_cmp` exactly when they have
-- the same bytes, and swapping them swaps the sign.
pub fb_cmp_swap :
    (a b : AttrVal)
    → IsSized a
    → IsSized b
    → a.binary ≡ b.binary
    → ((fb_cmp a b ≡ ok Ordering.eq) ↔ (a.value ≡ b.value)) × (fb_cmp b a ≡ reversed (fb_cmp a b))
fb_cmp_swap a b ha hb e =
    rw (fb_cmp-strcmp a b ha hb e, fb_cmp-strcmp b a hb ha (sym e))
      (
        (λ p. eq_of_strcmp _ _ (cc), λ p. rw p (ap ok (strcmp_refl b.value))),
        ap ok (strcmp-flip a.value b.value),
      )

-- On values of one kind, with sizes that are right, the order of `fb_cmp` is transitive: if it does
-- not put `a` above `b`, nor `b` above `c`, it does not put `a` above `c`.
pub fb_cmp_trans :
    (a b c : AttrVal)
    → IsSized a
    → IsSized b
    → IsSized c
    → a.binary ≡ b.binary
    → b.binary ≡ c.binary
    → fb_cmp a b ≢ ok Ordering.gt
    → fb_cmp b c ≢ ok Ordering.gt
    → fb_cmp a c ≢ ok Ordering.gt
fb_cmp_trans a b c ha hb hc ab bc h k e =
    strcmp_trans a.value b.value c.value (λ p. h (fb_cmp-strcmp a b ha hb ab ∙ ap ok p))
      (λ p. k (fb_cmp-strcmp b c hb hc bc ∙ ap ok p)) (cc (fb_cmp-strcmp a c ha hc (ab ∙ bc)))

-- Values of different kinds are refused.
pub fb_cmp_kinds : (a b : AttrVal) → a.binary ≢ b.binary → fb_cmp a b ≡ err einval
unfolding fb_cmp
fb_cmp_kinds a b h = ground arith
