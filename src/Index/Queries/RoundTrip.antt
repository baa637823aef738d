-- ===== src/Index/Queries/RoundTrip.antt =====
-- What is read back from the blob of a list of queries.
use glite_jp.Base.{
  ℕ, zero, suc, ◌+◌, ◌≤◌, ◌<◌, ◌^◌, [], ◌∷◌, ◌++◌, Bytes, List, map, All, Bool, true, false, Option,
  some, Outcome, ok, ◌>>=◌, length, length-append, take-append, drop-append, append_assoc, ◌≡◌,
  refl, sym, ap, ◌∙◌, arith,
}
use glite_jp.Types.{QueryRec, QueryOp, undef, equal, unequal, less, greater, within, exists}
use glite_jp.Index.Queries.{
  Buffer, le32, of_le32, cond_magic, array_init, op_number, number_of, serialize_from,
  queries_serialize, StoredQuery, array_get, array_get_long, pointer, get_field, deserialize_query,
  deserialize_all, queries_deserialize, serialize_query,
}
use glite_jp.Index.Queries.Buffers.{Adds}
use glite_jp.Index.Queries.Writing.{
  IsQuery, stored, stored_value, field, query_bytes, blob, serialize_from-Adds,
}

array_get_lem : (s r : Bytes) → array_get (length s) (s ++ r) ≡ ok (s, r)
unfolding array_get
array_get_lem s r = rw (take-append s r, drop-append s r) (ground (arith, length-append s r))

array_get_long_lem : (n : ℕ) (r : Bytes) → n < 2 ^ 32 → array_get_long (le32 n ++ r) ≡ ok (n, r)
array_get_long_lem n r h =
    unfold array_get_long in
    ap (λ (m : Outcome (Bytes × Bytes)). m >>= λ p. ok (of_le32 p.0, p.1))
      (array_get_lem (le32 n) r)
    ∙ ap (λ (k : ℕ). ok (k, r)) (unfold of_le32 in omega arith)

get_field_lem : (s r : Bytes) → length s < 2 ^ 32 → get_field (field s ++ r) ≡ ok (s, r)
get_field_lem s r h =
    unfold get_field in
    ap (λ (m : Outcome (ℕ × Bytes)). m >>= λ p. array_get p.0 p.1)
      (array_get_long_lem (length s) (s ++ r) h)
    ∙ array_get_lem s r

small : (op : QueryOp) → op_number op < 2 ^ 32
small undef = omega arith
small equal = omega arith
small unequal = omega arith
small less = omega arith
small greater = omega arith
small within = omega arith
small exists = omega arith

flag : (b : Bool) → number_of b < 2 ^ 32
flag true = omega arith
flag false = omega arith

pointer_text : (s : Bytes) → pointer (s ++ 0 ∷ []) ≡ some (s ++ 0 ∷ [])
pointer_text [] = refl
pointer_text (c ∷ s) = refl

spread :
    (q : QueryRec) (r : Bytes)
    → query_bytes q ++ r
      ≡ le32 cond_magic
        ++ (field (q.attr ++ 0 ∷ [])
            ++ (le32 (op_number q.op)
                ++ (le32 (number_of q.binary)
                    ++ (field (stored_value q q.size q.value)
                        ++ (field (stored_value q q.size2 q.value2) ++ r)))))
spread q r =
    ap (λ (t : Bytes). le32 cond_magic ++ (le32 (length q.attr + 1) ++ t))
      (append_assoc (q.attr ++ 0 ∷ []) _ r
        ∙ ap
            (λ (t : Bytes).
              (q.attr ++ 0 ∷ []) ++ (le32 (op_number q.op) ++ (le32 (number_of q.binary) ++ t)))
            (append_assoc (field (stored_value q q.size q.value))
              (field (stored_value q q.size2 q.value2)) r))
    ∙ ap
        (λ (n : ℕ).
          le32 cond_magic
          ++ (le32 n
              ++ ((q.attr ++ 0 ∷ [])
                  ++ (le32 (op_number q.op)
                      ++ (le32 (number_of q.binary)
                          ++ (field (stored_value q q.size q.value)
                              ++ (field (stored_value q q.size2 q.value2) ++ r)))))))
        (sym (length-append q.attr (0 ∷ [])))

deserialize_query_lem :
    (q : QueryRec) (r : Bytes)
    → IsQuery q
    → deserialize_query (query_bytes q ++ r) ≡ ok (stored q, r)
deserialize_query_lem q r h =
    ap (λ (s : Bytes). deserialize_query s) (spread q r)
    ∙ (unfold deserialize_query in
        rw
          (
            array_get_long_lem cond_magic (field (q.attr ++ 0 ∷ []) ++ r1) (omega arith),
            get_field_lem (q.attr ++ 0 ∷ []) r1
                (omega (arith, h.short, length-append q.attr (0 ∷ []))),
            array_get_long_lem (op_number q.op) r2 (small q.op),
            array_get_long_lem (number_of q.binary) r3 (flag q.binary),
            get_field_lem (stored_value q q.size q.value) r4 h.value_short,
            get_field_lem (stored_value q q.size2 q.value2) r h.value2_short,
            pointer_text q.attr,
          )
          refl)
  where
    r4 : Bytes
    r4 = field (stored_value q q.size2 q.value2) ++ r

    r3 : Bytes
    r3 = field (stored_value q q.size q.value) ++ r4

    r2 : Bytes
    r2 = le32 (number_of q.binary) ++ r3

    r1 : Bytes
    r1 = le32 (op_number q.op) ++ r2

deserialize_all_lem :
    (qs : List QueryRec) (fuel : ℕ)
    → All IsQuery qs
    → length qs ≤ fuel
    → deserialize_all fuel (blob qs) ≡ ok (map stored qs)
unfolding deserialize_all
deserialize_all_lem [] zero h k = refl
deserialize_all_lem [] (suc fuel) h k = refl
deserialize_all_lem (q ∷ qs) zero h k = absurd (omega arith)
deserialize_all_lem (q ∷ qs) (suc fuel) (hq, hs) k =
    ap
      (λ (m : Outcome (StoredQuery × Bytes)).
        m >>= λ p. deserialize_all fuel p.1 >>= λ l. ok (p.0 ∷ l))
      (deserialize_query_lem q (blob qs) hq)
    ∙ ap (λ (m : Outcome (List StoredQuery)). m >>= λ l. ok (stored q ∷ l))
        (deserialize_all_lem qs fuel hs (omega arith))

length-blob : (qs : List QueryRec) → length qs ≤ length (blob qs)
length-blob [] = omega arith
length-blob (q ∷ qs) = omega (arith, length-append (query_bytes q) (blob qs), length-blob qs)

-- Queries that `IsQuery` admits are written to a blob, without an overrun of the growing buffer,
-- and are all read back from it in their order, each as `stored` says.
pub deserialize-serialize :
    (qs : List QueryRec)
    → All IsQuery qs
    → (s : Bytes) × (queries_serialize qs ≡ ok s) × (queries_deserialize s ≡ ok (map stored qs))
deserialize-serialize qs h = (
  blob qs,
  (unfold queries_serialize in
      ap (λ (m : Outcome Buffer). m >>= λ b. ok b.content) written.returned ∙ ap ok written.added),
  (unfold queries_deserialize in deserialize_all_lem qs (length (blob qs)) h (length-blob qs)),
)
  where
    written : Adds (array_init 1024) (blob qs) (serialize_from qs (array_init 1024))
    written =
        serialize_from-Adds qs (array_init 1024) h
          (record { roomy = omega arith; within = omega arith })

-- The values of a query for `unequal` are lost: whatever they are, the same blob is written.
pub unequal_forgets :
    (q : QueryRec) (v v2 : Option Bytes) (n n2 : ℕ)
    → q.op ≡ unequal
    → queries_serialize (record q { value = v; size = n; value2 = v2; size2 = n2 } ∷ [])
      ≡ queries_serialize (q ∷ [])
unfolding queries_serialize serialize_query
unequal_forgets q v v2 n n2 e =
    ap
      (λ (o : QueryOp).
        queries_serialize (record q { op = o; value = v; size = n; value2 = v2; size2 = n2 } ∷ []))
      e
    ∙ sym (ap (λ (o : QueryOp). queries_serialize (record q { op = o } ∷ [])) e)
