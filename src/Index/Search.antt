-- ===== src/Index/Search.antt =====
-- QueryJobs in org.glite.jp.index/src/soap_ops.c: the SQL text that a query becomes, with
-- glite_jp_indexdb_attr2id of org.glite.jp.common/src/indexdb.c.
pub mod Request
pub mod Checks
pub mod Text
pub mod Joined
use glite_jp.Base.{
  ℕ, zero, suc, ◌+◌, ◌≤◌, [], ◌∷◌, ◌++◌, Bytes, codes, same, Bool, true, false, not, ◌&&◌, ◌||◌,
  Option, some, none, leb, ◌==◌, if◌then◌else◌, Outcome, ok, err, fault, ◌>>=◌, ◌>>◌, einval, List,
  map, length, pos,
}
use glite_jp.Base.Decimal.{print_nat}
use glite_jp.Types.{AttrVal, QueryOp, undef, equal, unequal, less, greater, within, exists}
use glite_jp.Attr.Codec.{Base64}
use glite_jp.Attr.Plugins.{TypePlugin, attrval_to_db_index}
use glite_jp.Index.Search.Request.{
  tolower, same_case, find_attr, jobid_attr, SoapValue, IndexRecord, IndexCond, IndexedNames,
  indexed_attr, some_indexed, check_indexed_conditions, known, all_known, check_conditions,
  string_of, blob_of, unset, unreadable, interrupted, names,
}

-- the name of a table, once
unfoldable pub add_attr_table : Bytes → List Bytes → List Bytes
add_attr_table new [] = new ∷ []
add_attr_table new (t ∷ ts) = if same t new then t ∷ ts else t ∷ add_attr_table new ts

abbrev pub get_op : QueryOp → Option Bytes
get_op undef = none
get_op equal = some (codes "=")
get_op unequal = some (codes "!=")
get_op less = some (codes "<")
get_op greater = some (codes ">")
get_op within = some (codes "BETWEEN")
get_op exists = none

-- What trio prints for a string that it escapes, and for a null pointer.
pub record Trio : Type 0 where
  pub escape : Bytes → Bytes
  pub null : Bytes

abbrev pub escaped : Trio → Option Bytes → Bytes
escaped t none = t.null
escaped t (some s) = t.escape s

abbrev pub printed : Trio → Option Bytes → Bytes
printed t none = t.null
printed t (some s) = s

abbrev pub get_sql_stringvalue : Option SoapValue → Option Bytes
get_sql_stringvalue none = none
get_sql_stringvalue (some (string_of s)) = some s
get_sql_stringvalue (some (blob_of s n)) = none
get_sql_stringvalue (some unset) = none

abbrev pub column : Trio → Option Bytes → Bytes
column t none = codes "jobs.dg_jobid"
column t (some id) = codes "attr_" ++ (t.escape id ++ codes ".value")

abbrev pub compare_text : Trio → Option Bytes → Bytes → Option Bytes → Bytes
compare_text t id op value =
    column t id ++ (codes " " ++ (op ++ (codes " '" ++ (escaped t value ++ codes "'"))))

abbrev pub is_within : QueryOp → Bool
is_within within = true
is_within o = false

abbrev pub is_null : Option Bytes → Bool
is_null none = true
is_null (some s) = false

-- The text, if any, and the code. An operation that is not supported has no text and no error; the
-- first value is tested where the second is printed.
unfoldable pub get_sql_cond :
    Trio → Option Bytes → QueryOp → Option Bytes → Option Bytes → Option Bytes × ℕ
get_sql_cond t id op value value2 = elim (get_op op) [
  | none ↦ (none, 0)
  | some o ↦
      if is_within op
      then if is_null value then (none, einval) else (
        some (compare_text t id o value ++ (codes " AND '" ++ (escaped t value2 ++ codes "'"))),
        0,
      )
      else (some (compare_text t id o value), 0)
]

-- the value of an attribute of this name
abbrev pub index_attr : Bytes → Option ℕ → Bytes → Bool → ℕ → AttrVal
index_attr name origin v binary size = record {
  name = name;
  value = v;
  binary = binary;
  size = size;
  origin = elim origin [ some o ↦ o | none ↦ 0 ];
  origin_detail = none;
  timestamp = pos 0;
}

module _ (b : Base64) (ps : List TypePlugin) (t : Trio) (hash : Bytes → Bytes) where
  unfoldable pub attr2id : Bytes → Bytes
  attr2id name = hash (map tolower name)

  abbrev pub get_sql_indexvalue : Bytes → Option ℕ → Option SoapValue → Option Bytes
  get_sql_indexvalue name origin none = none
  get_sql_indexvalue name origin (some (string_of s)) =
      some (attrval_to_db_index b ps (index_attr name origin s false 0) 255)
  get_sql_indexvalue name origin (some (blob_of s n)) =
      some (attrval_to_db_index b ps (index_attr name origin s true n) 255)
  get_sql_indexvalue name origin (some unset) = none

  -- The text of one record: no text is an error, but for the identifier of the job, where a null
  -- text is printed.
  abbrev pub jobid_record : QueryOp → Option Bytes → Option Bytes → Option Bytes
  jobid_record op none value2 = none
  jobid_record op (some v) value2 =
      let (cond, code) = get_sql_cond t none op (some v) value2 in
      if code == 0 then some (printed t cond) else none

  abbrev pub record_text : Bytes → Option ℕ → IndexRecord → Option Bytes
  record_text name origin r =
      if same_case name jobid_attr
      then jobid_record r.op (get_sql_stringvalue r.value) (get_sql_stringvalue r.value2)
      else (get_sql_cond t (some (attr2id name)) r.op (get_sql_indexvalue name origin r.value)
          (get_sql_indexvalue name origin r.value2)).0

  abbrev pub is_exists : QueryOp → Bool
  is_exists exists = true
  is_exists o = false

  -- The text so far, which is freed twice if an error follows it.
  abbrev pub or_failed : Bytes → Outcome (Option Bytes)
  or_failed [] = ok none
  or_failed (c ∷ s) = fault

  abbrev pub or_with : Bytes → Bytes → Bytes
  or_with [] cond = cond
  or_with (c ∷ s) cond = (c ∷ s) ++ (codes " OR " ++ cond)

  unfoldable pub or_loop : Bytes → Option ℕ → Bytes → List IndexRecord → Outcome (Option Bytes)
  or_loop name origin sql [] = ok (some sql)
  or_loop name origin sql (r ∷ rs) = elim (is_exists r.op) [
    | true ↦ or_loop name origin sql rs
    | false ↦ elim (record_text name origin r) [
      | none ↦ or_failed sql
      | some cond ↦ or_loop name origin (or_with sql cond) rs
    ]
  ]

  unfoldable pub get_sql_or : Bytes → IndexCond → Outcome (Option Bytes)
  unfolding or_loop
  get_sql_or name c = or_loop name c.origin [] c.records

  abbrev pub and_if : ℕ → Bytes
  and_if zero = []
  and_if (suc i) = codes "AND "

  abbrev pub origin_text : Bytes → Option ℕ → Bytes
  origin_text id none = []
  origin_text id (some o) =
      codes "attr_" ++ (t.escape id ++ (codes ".origin = " ++ (print_nat o ++ codes " AND ")))

  -- the join with the table of the attribute
  abbrev pub join_text : Bytes → Option ℕ → Bytes
  join_text id origin =
      origin_text id origin ++ (codes "jobs.jobid = attr_" ++ (t.escape id ++ codes ".jobid"))

  -- Text behind text, with a separator where there is any before it.
  abbrev pub behind : Bytes → Bytes → Bytes → Bytes
  behind [] sep s = s
  behind (c ∷ l) sep s = (c ∷ l) ++ (sep ++ s)

  abbrev pub with_or : Bytes → Bytes → Bytes
  with_or qa [] = qa
  with_or qa (c ∷ s) = behind qa (codes " AND ") (codes "(" ++ ((c ∷ s) ++ codes ")"))

  abbrev pub blank_before : Bytes → Bytes
  blank_before [] = []
  blank_before (c ∷ s) = codes " " ++ (c ∷ s)

  -- One condition: its text behind the others, and the tables that are used. Without an inner text
  -- the function returns a variable that was not set.
  abbrev pub add_condition :
      ℕ → Bytes → IndexCond → Bytes × List Bytes → Outcome (Bytes × List Bytes)
  add_condition i name c (qwhere, tables) =
      let jobid = same_case name jobid_attr in
      let qa : Bytes = if jobid then [] else and_if i ++ join_text (attr2id name) c.origin in
      let tables' : List Bytes = if jobid then tables else add_attr_table (attr2id name) tables in
      get_sql_or name c >>= λ o. elim o [
        | none ↦ fault
        | some qor ↦ ok (qwhere ++ blank_before (with_or qa qor), tables')
      ]

  abbrev pub name_of : Option Bytes → Outcome Bytes
  name_of none = fault
  name_of (some a) = ok a

  unfoldable pub where_loop : ℕ → List IndexCond → Bytes × List Bytes → Outcome (Bytes × List Bytes)
  where_loop i [] w = ok w
  where_loop i (c ∷ cs) w =
      (name_of c.attr >>= λ name. add_condition i name c w) >>= λ v. where_loop (suc i) cs v

  abbrev pub table_list : List Bytes → Bytes
  table_list [] = []
  table_list (t ∷ ts) = codes ", attr_" ++ (t ++ table_list ts)

  abbrev pub select_text : Bool → Bytes → Bytes → Bytes → Bytes
  select_text true peer tables qwhere =
      codes "SELECT DISTINCT dg_jobid,ps FROM jobs" ++ (tables ++ (codes " WHERE" ++ qwhere))
  select_text false peer tables qwhere =
      codes "SELECT DISTINCT dg_jobid,ps FROM jobs,users"
      ++ (tables
          ++ (codes " WHERE (jobs.ownerid = users.userid AND users.cert_subj='"
              ++ (peer ++ (codes "') AND" ++ qwhere))))

  -- The text of the query of get_jobids; the peer's name is not escaped.
  unfoldable pub jobs_query : Bool → Bytes → List IndexCond → Outcome Bytes
  jobs_query no_auth peer cs =
      where_loop 0 cs ([], []) >>= λ w. ok (select_text no_auth peer (table_list w.1) w.0)

  -- QueryJobs up to the execution of that query
  unfoldable pub query_jobs :
      IndexedNames
      → List Bytes
      → Bool
      → Bytes
      → List IndexCond
      → List (Option Bytes)
      → Outcome Bytes
  query_jobs indexed attrs no_auth peer cs asked = do
    refused ← check_indexed_conditions indexed cs
    if refused then err einval else ok tt
    if check_conditions attrs cs asked then err einval else ok tt
    jobs_query no_auth peer cs
