-- ===== src/Index/Search/Request.antt =====
-- What QueryJobs of org.glite.jp.index/src/soap_ops.c is asked, and the checks that come first, with
-- glite_jpis_find_attr of common.c.
use glite_jp.Base.{
  ℕ, ◌+◌, [], ◌∷◌, Bytes, codes, same, Bool, true, false, not, ◌&&◌, ◌||◌, Option, some, none, leb,
  if◌then◌else◌, Outcome, ok, fault, List, map,
}
use glite_jp.Types.{QueryOp}

-- tolower of ASCII
abbrev pub tolower : ℕ → ℕ
tolower c = if leb 65 c && leb c 90 then c + 32 else c

-- `!strcasecmp(a, b)`
unfoldable pub same_case : Bytes → Bytes → Bool
same_case a b = same (map tolower a) (map tolower b)

unfoldable pub find_attr : List Bytes → Bytes → Bool
find_attr [] a = false
find_attr (x ∷ xs) a = same_case a x || find_attr xs a

abbrev pub jobid_attr : Bytes
jobid_attr = codes "http://egee.cesnet.cz/en/Schema/JP/System:jobId"

-- A string, a blob with its size, or neither.
pub data SoapValue : Type 0 where
  string_of : Bytes → SoapValue
  blob_of : Bytes → ℕ → SoapValue
  unset : SoapValue

pub record IndexRecord : Type 0 where
  pub op : QueryOp
  pub value : Option SoapValue
  pub value2 : Option SoapValue

-- The attribute is a pointer that may be null; no origin is a null pointer too.
pub record IndexCond : Type 0 where
  pub attr : Option Bytes
  pub origin : Option ℕ
  pub records : List IndexRecord

-- What the query for the indexed attributes gives: it failed, it failed in a later row, or these.
pub data IndexedNames : Type 0 where
  unreadable interrupted : IndexedNames
  names : List Bytes → IndexedNames

-- One condition against the indexed attributes: `none` means that the loops go on.
abbrev pub indexed_attr : List Bytes → Option Bytes → Option Bool
indexed_attr [] a = none
indexed_attr (x ∷ xs) none = some true
indexed_attr (x ∷ xs) (some a) =
    if same_case a jobid_attr || find_attr (x ∷ xs) a then some true else none

unfoldable pub some_indexed : List Bytes → List IndexCond → Bool
some_indexed xs [] = false
some_indexed xs (c ∷ cs) = elim (indexed_attr xs c.attr) [
  | some b ↦ true
  | none ↦ some_indexed xs cs
]

-- Whether the query is refused. After a failed query the clean-up reads a counter that was not set.
unfoldable pub check_indexed_conditions : IndexedNames → List IndexCond → Outcome Bool
check_indexed_conditions unreadable cs = fault
check_indexed_conditions interrupted cs = ok true
check_indexed_conditions (names xs) cs = ok (not (some_indexed xs cs))

abbrev pub known : List Bytes → Option Bytes → Bool
known attrs none = false
known attrs (some a) = find_attr attrs a

unfoldable pub all_known : List Bytes → List (Option Bytes) → Bool
all_known attrs [] = true
all_known attrs (a ∷ l) = if known attrs a then all_known attrs l else false

-- Whether the query is refused, for a condition or for an attribute that is asked for.
unfoldable pub check_conditions : List Bytes → List IndexCond → List (Option Bytes) → Bool
check_conditions attrs cs asked =
    if all_known attrs (map (λ c. c.attr) cs) then not (all_known attrs asked) else true
