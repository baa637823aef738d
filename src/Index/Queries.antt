-- ===== src/Index/Queries.antt =====
-- Queries as a blob of the feeds table, in org.glite.jp.index/src/db_ops.c: for each query a magic
-- number, and then its attribute, operation, kind and two values, each length before its bytes.
pub mod Buffers
pub mod Writing
pub mod RoundTrip
use glite_jp.Base.{
  ℕ, zero, suc, ◌+◌, ◌-◌, ◌*◌, ◌/◌, ◌%◌, ◌^◌, [], ◌∷◌, ◌++◌, Bytes, Bool, true, false, Option, some,
  none, List, ltb, ◌==◌, if◌then◌else◌, Outcome, ok, err, fault, ◌>>=◌, ◌>>◌, take, drop, length,
}
use glite_jp.Types.{QueryRec, QueryOp, undef, equal, unequal, less, greater, within, exists}

abbrev pub cond_magic : ℕ
cond_magic = 0x444E4F43

-- a 32-bit number, the lowest byte first on every machine
abbrev pub le32 : ℕ → Bytes
le32 n = (n % 256) ∷ (n / 2 ^ 8 % 256) ∷ (n / 2 ^ 16 % 256) ∷ (n / 2 ^ 24 % 256) ∷ []

unfoldable pub of_le32 : Bytes → ℕ
of_le32 (a ∷ b ∷ c ∷ d ∷ s) = a + b * 2 ^ 8 + c * 2 ^ 16 + d * 2 ^ 24
of_le32 _ = 0

-- A buffer of `maxlen` bytes that holds the content.
pub record Buffer : Type 0 where
  pub content : Bytes
  pub maxlen : ℕ

abbrev pub array_init : ℕ → Buffer
array_init n = record { content = []; maxlen = n }

-- `do maxlen *= 2; while (len > maxlen);`, for at most `fuel` more rounds
pub doubled : ℕ → ℕ → ℕ → ℕ
doubled zero len maxlen = maxlen * 2
doubled (suc fuel) len maxlen =
    let more = doubled fuel len (maxlen * 2) in if ltb (maxlen * 2) len then more else maxlen * 2

abbrev pub grown : ℕ → ℕ → ℕ
grown len maxlen = if ltb maxlen len then doubled len len maxlen else maxlen

-- A copy behind the end of the buffer is a fault; so is a size that no doubling makes large enough.
unfoldable pub array_add : Buffer → Bytes → Outcome Buffer
unfolding doubled
array_add b s =
    let len = length b.content + length s in
    if ltb (grown len b.maxlen) len
    then fault
    else ok (record { content = b.content ++ s; maxlen = grown len b.maxlen })

abbrev pub array_add_long : Buffer → ℕ → Outcome Buffer
array_add_long b n = array_add b (le32 n)

-- the numbers of the enumeration
abbrev pub op_number : QueryOp → ℕ
op_number undef = 0
op_number equal = 1
op_number unequal = 2
op_number less = 3
op_number greater = 4
op_number within = 5
op_number exists = 6

-- `op_args`, as glite_jpis_init_context sets it; `unequal` keeps its initial 0
abbrev pub op_args : QueryOp → ℕ
op_args undef = 0
op_args equal = 1
op_args unequal = 0
op_args less = 1
op_args greater = 1
op_args within = 2
op_args exists = 0

-- the bytes of a value that has a size, or of a string with its NUL
abbrev pub value_bytes : Bool → ℕ → Option Bytes → Outcome Bytes
value_bytes false size none = ok []
value_bytes false size (some v) = ok (v ++ 0 ∷ [])
value_bytes true size none = if size == 0 then ok [] else fault
value_bytes true size (some v) = if ltb (length v) size then fault else ok (take size v)

-- The same test stands before both values, so two are written where one is meant. An operation
-- that is not set fails an assertion.
abbrev pub arg_bytes : QueryRec → ℕ → Option Bytes → Outcome Bytes
arg_bytes q size v =
    if op_number q.op == 0
    then fault
    else if ltb (op_args q.op) 1
    then ok []
    else value_bytes q.binary size v

-- a length, and its bytes where there are any
abbrev pub add_field : Buffer → Bytes → Outcome Buffer
add_field b [] = array_add_long b 0
add_field b (c ∷ s) = array_add_long b (length (c ∷ s)) >>= λ b. array_add b (c ∷ s)

abbrev pub number_of : Bool → ℕ
number_of true = 1
number_of false = 0

unfoldable pub serialize_query : QueryRec → Buffer → Outcome Buffer
serialize_query q b = do
  b1 ← array_add_long b cond_magic
  b2 ← array_add_long b1 (length q.attr + 1)
  b3 ← array_add b2 (q.attr ++ 0 ∷ [])
  b4 ← array_add_long b3 (op_number q.op)
  b5 ← array_add_long b4 (number_of q.binary)
  v1 ← arg_bytes q q.size q.value
  b6 ← add_field b5 v1
  v2 ← arg_bytes q q.size2 q.value2
  add_field b6 v2

pub serialize_from : List QueryRec → Buffer → Outcome Buffer
serialize_from [] b = ok b
serialize_from (q ∷ qs) b = serialize_query q b >>= serialize_from qs

-- The blob; a null array of queries is the empty list.
unfoldable pub queries_serialize : List QueryRec → Outcome Bytes
unfolding serialize_from
queries_serialize qs = do b ← serialize_from qs (array_init 1024); ok b.content

-- What a query is read back as: the bytes in memory, their NUL included, or a null pointer.
pub record StoredQuery : Type 0 where
  pub attr : Option Bytes
  pub op : ℕ
  pub binary : ℕ
  pub value : Option Bytes
  pub size : ℕ
  pub value2 : Option Bytes
  pub size2 : ℕ

-- A read behind the end of the blob is a fault.
unfoldable pub array_get : ℕ → Bytes → Outcome (Bytes × Bytes)
array_get n s = if ltb (length s) n then fault else ok (take n s, drop n s)

unfoldable pub array_get_long : Bytes → Outcome (ℕ × Bytes)
unfolding array_get of_le32
array_get_long s = do (w, r) ← array_get 4 s; ok (of_le32 w, r)

abbrev pub pointer : Bytes → Option Bytes
pointer [] = none
pointer (c ∷ s) = some (c ∷ s)

-- a length and its bytes
unfoldable pub get_field : Bytes → Outcome (Bytes × Bytes)
unfolding array_get_long array_get
get_field s = do (n, r) ← array_get_long s; array_get n r

unfoldable pub deserialize_query : Bytes → Outcome (StoredQuery × Bytes)
deserialize_query s = do
  (magic, r0) ← array_get_long s
  if magic == cond_magic then ok tt else fault
  (attr, r1) ← get_field r0
  (op, r2) ← array_get_long r1
  (binary, r3) ← array_get_long r2
  (value, r4) ← get_field r3
  (value2, r5) ← get_field r4
  ok (
    record {
      attr = pointer attr;
      op = op;
      binary = binary;
      value = pointer value;
      size = length value;
      value2 = pointer value2;
      size2 = length value2;
    },
    r5,
  )

-- Each round reads at least four bytes, so the length of the blob is fuel enough.
pub deserialize_all : ℕ → Bytes → Outcome (List StoredQuery)
deserialize_all zero s = ok []
deserialize_all (suc fuel) [] = ok []
deserialize_all (suc fuel) (c ∷ s) = do
  (q, r) ← deserialize_query (c ∷ s)
  qs ← deserialize_all fuel r
  ok (q ∷ qs)

-- On a wrong magic number the clean-up walks an array that was not ended yet: that is a fault.
unfoldable pub queries_deserialize : Bytes → Outcome (List StoredQuery)
unfolding deserialize_all
queries_deserialize s = deserialize_all (length s) s
