-- ===== src/Attr/Codec/Index.antt =====
-- The index column: `fb_to_db_index` keeps the order of `fb_cmp`.
use glite_jp.Base.{
  List, ℕ, zero, suc, ◌≤◌, [], ◌∷◌, Bytes, Ordering, strcmp, strcmp_refl, take, length, ok, true,
  false, Bool-cases, inl, inr, ◌≡◌, ◌≢◌, refl, sym, ap, ◌∙◌, arith,
}
use glite_jp.Types.{AttrVal}
use glite_jp.Attr.Compare.{fb_cmp}
use glite_jp.Attr.Compare.Order.{IsSized, fb_cmp-strcmp}
use glite_jp.Attr.Codec.{fb_to_db_index}

take_short {ℓ} : {A : Type ℓ} (n : ℕ) (xs : List A) → length xs ≤ n → take n xs ≡ xs
take_short zero [] h = refl
take_short zero (x ∷ xs) h = elim h [ ]
take_short (suc n) [] h = refl
take_short (suc n) (x ∷ xs) h = ap (λ t. x ∷ t) (take_short n xs (omega arith))

strcmp-take :
    (n : ℕ) (a b : Bytes) → strcmp a b ≢ Ordering.gt → strcmp (take n a) (take n b) ≢ Ordering.gt
unfolding strcmp
strcmp-take zero a b h = ground arith
strcmp-take (suc n) [] [] h = h
strcmp-take (suc n) [] (y ∷ b) h = ground arith
strcmp-take (suc n) (x ∷ a) [] h = absurd (h refl)
strcmp-take (suc n) (x ∷ a) (y ∷ b) h = ground (arith, strcmp-take n a b)

index_text : (a : AttrVal) (n : ℕ) → a.binary ≡ false → fb_to_db_index a n ≡ take n a.value
unfolding fb_to_db_index
index_text a n e = ground (arith, take_short n a.value)

index_blob :
    (a b : AttrVal) (n : ℕ)
    → a.binary ≡ true
    → b.binary ≡ true
    → fb_to_db_index a n ≡ fb_to_db_index b n
unfolding fb_to_db_index
index_blob a b n e f = ground arith

-- For values of one kind, with sizes that are right, the text of the index column does not
-- decrease: where `fb_cmp` does not put `a` above `b`, `strcmp` does not put the text of `a` above
-- that of `b`, for any length of the column.
pub strcmp-fb_to_db_index :
    (a b : AttrVal) (n : ℕ)
    → IsSized a
    → IsSized b
    → a.binary ≡ b.binary
    → fb_cmp a b ≢ ok Ordering.gt
    → strcmp (fb_to_db_index a n) (fb_to_db_index b n) ≢ Ordering.gt
strcmp-fb_to_db_index a b n ha hb e h = elim (Bool-cases a.binary) [
  | inl t ↦ rw (index_blob a b n t (sym e ∙ t), strcmp_refl (fb_to_db_index b n)) (ground arith)
  | inr f ↦
      rw (index_text a n f, index_text b n (sym e ∙ f))
        (strcmp-take n a.value b.value λ p. h (fb_cmp-strcmp a b ha hb e ∙ ap ok p))
]
