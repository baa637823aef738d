-- ===== src/Index/Queries/Writing.antt =====
-- The blob that is written for a list of queries.
use glite_jp.Base.{
  ℕ, ◌+◌, ◌<◌, ◌^◌, [], ◌∷◌, ◌++◌, Bytes, List, All, Bool, true, false, Option, some, none, ltb,
  ◌==◌, if◌then◌else◌, Outcome, ok, fault, ◌>>=◌, length, take, append-nil, ◌≡◌, ◌≢◌, refl, sym, ap,
  ◌∙◌, arith, subst,
}
use glite_jp.Types.{QueryRec, QueryOp, undef, equal, unequal, less, greater, within, exists}
use glite_jp.Index.Queries.{
  Buffer, le32, cond_magic, array_add, op_number, op_args, value_bytes, arg_bytes, add_field,
  number_of, serialize_query, serialize_from, StoredQuery, pointer,
}
use glite_jp.Index.Queries.Buffers.{IsBuffer, Adds, array_add-Adds, Adds-bind}

-- the value's bytes that are written
abbrev pub raw_value : Bool → ℕ → Option Bytes → Bytes
raw_value binary size none = []
raw_value false size (some v) = v ++ 0 ∷ []
raw_value true size (some v) = take size v

abbrev pub stored_value : QueryRec → ℕ → Option Bytes → Bytes
stored_value q size v = if ltb (op_args q.op) 1 then [] else raw_value q.binary size v

-- a binary value has as many bytes as its size says
abbrev pub HasSize : Bool → ℕ → Option Bytes → Type 0
HasSize false size v = Unit
HasSize true size none = size ≡ 0
HasSize true size (some v) = length v ≡ size

-- A query with an operation, with right sizes, and with lengths of 32 bits.
pub record IsQuery (q : QueryRec) : Type 0 where
  pub set : q.op ≢ undef
  pub sized : HasSize q.binary q.size q.value
  pub sized2 : HasSize q.binary q.size2 q.value2
  pub short : length q.attr + 1 < 2 ^ 32
  pub value_short : length (stored_value q q.size q.value) < 2 ^ 32
  pub value2_short : length (stored_value q q.size2 q.value2) < 2 ^ 32

-- What a query is read back as: strings with their NUL; no values for an operation without any.
abbrev pub stored : QueryRec → StoredQuery
stored q = record {
  attr = some (q.attr ++ 0 ∷ []);
  op = op_number q.op;
  binary = number_of q.binary;
  value = pointer (stored_value q q.size q.value);
  size = length (stored_value q q.size q.value);
  value2 = pointer (stored_value q q.size2 q.value2);
  size2 = length (stored_value q q.size2 q.value2);
}

abbrev pub field : Bytes → Bytes
field s = le32 (length s) ++ s

abbrev pub query_bytes : QueryRec → Bytes
query_bytes q =
    le32 cond_magic
    ++ (le32 (length q.attr + 1)
        ++ ((q.attr ++ 0 ∷ [])
            ++ (le32 (op_number q.op)
                ++ (le32 (number_of q.binary)
                    ++ (field (stored_value q q.size q.value)
                        ++ field (stored_value q q.size2 q.value2))))))

abbrev pub blob : List QueryRec → Bytes
blob [] = []
blob (q ∷ qs) = query_bytes q ++ blob qs

value_bytes_lem :
    (binary : Bool) (size : ℕ) (v : Option Bytes)
    → HasSize binary size v
    → value_bytes binary size v ≡ ok (raw_value binary size v)
value_bytes_lem false size none h = refl
value_bytes_lem false size (some v) h = refl
value_bytes_lem true size none h = ground arith
value_bytes_lem true size (some v) h = ground arith

op_set : (op : QueryOp) → op ≢ undef → (op_number op == 0) ≡ false
op_set undef h = absurd (h refl)
op_set equal h = refl
op_set unequal h = refl
op_set less h = refl
op_set greater h = refl
op_set within h = refl
op_set exists h = refl

arg_bytes_lem :
    (q : QueryRec) (size : ℕ) (v : Option Bytes)
    → q.op ≢ undef
    → HasSize q.binary size v
    → arg_bytes q size v ≡ ok (stored_value q size v)
arg_bytes_lem q size v h k =
    ap
      (λ (b : Bool).
        if b then fault else if ltb (op_args q.op) 1 then ok [] else value_bytes q.binary size v)
      (op_set q.op h)
    ∙ ap (λ (m : Outcome Bytes). if ltb (op_args q.op) 1 then ok [] else m)
        (value_bytes_lem q.binary size v k)
    ∙ ground arith

add_field-Adds : (b : Buffer) (s : Bytes) → IsBuffer b → Adds b (field s) (add_field b s)
add_field-Adds b [] w = array_add-Adds b (le32 0) w
add_field-Adds b (c ∷ s) w =
    Adds-bind b (le32 (length (c ∷ s))) (c ∷ s) _ (λ d. array_add d (c ∷ s)) (array_add-Adds b _ w)
      λ d k. array_add-Adds d (c ∷ s) k

serialize_query-Adds :
    (q : QueryRec) (b : Buffer)
    → IsQuery q
    → IsBuffer b
    → Adds b (query_bytes q) (serialize_query q b)
unfolding serialize_query
serialize_query-Adds q b h w = Adds-bind b _ _ _ _ (array_add-Adds b (le32 cond_magic) w) λ b1 w1.
    Adds-bind b1 _ _ _ _ (array_add-Adds b1 (le32 (length q.attr + 1)) w1) λ b2 w2.
      Adds-bind b2 _ _ _ _ (array_add-Adds b2 (q.attr ++ 0 ∷ []) w2) λ b3 w3.
        Adds-bind b3 _ _ _ _ (array_add-Adds b3 (le32 (op_number q.op)) w3) λ b4 w4.
          Adds-bind b4 _ _ _ _ (array_add-Adds b4 (le32 (number_of q.binary)) w4)
            λ b5 w5. values b5 w5
  where
    values :
        (c : Buffer)
        → IsBuffer c
        → Adds c
            (field (stored_value q q.size q.value) ++ field (stored_value q q.size2 q.value2))
            (arg_bytes q q.size q.value >>= λ v1.
              add_field c v1 >>= λ d. arg_bytes q q.size2 q.value2 >>= λ v2. add_field d v2)
    values c w =
        subst
          (λ (m : Outcome Bytes).
            Adds c
              (field (stored_value q q.size q.value) ++ field (stored_value q q.size2 q.value2))
              (m >>= λ v1.
                add_field c v1 >>= λ d. arg_bytes q q.size2 q.value2 >>= λ v2. add_field d v2))
          (sym (arg_bytes_lem q q.size q.value h.set h.sized))
          (Adds-bind c (field (stored_value q q.size q.value))
            (field (stored_value q q.size2 q.value2)) _
            (λ d. arg_bytes q q.size2 q.value2 >>= λ v2. add_field d v2)
            (add_field-Adds c (stored_value q q.size q.value) w)
            λ d k.
              subst
                (λ (m : Outcome Bytes).
                  Adds d (field (stored_value q q.size2 q.value2)) (m >>= λ v2. add_field d v2))
                (sym (arg_bytes_lem q q.size2 q.value2 h.set h.sized2))
                (add_field-Adds d (stored_value q q.size2 q.value2) k))

pub serialize_from-Adds :
    (qs : List QueryRec) (b : Buffer)
    → All IsQuery qs
    → IsBuffer b
    → Adds b (blob qs) (serialize_from qs b)
unfolding serialize_from
serialize_from-Adds [] b h w = record {
  result = b;
  returned = refl;
  added = sym (append-nil b.content);
  kept = w;
}
serialize_from-Adds (q ∷ qs) b (hq, hs) w =
    Adds-bind b (query_bytes q) (blob qs) (serialize_query q b) (serialize_from qs)
      (serialize_query-Adds q b hq w) λ c k. serialize_from-Adds qs c hs k
