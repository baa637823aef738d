-- ===== src/Types.antt =====
-- org.glite.jp.common/interface/types.h: attribute values, query records and errors.
use glite_jp.Base.{ℕ, Bool, Bytes, Option, ℤ}

-- glite_jp_attr_orig_t, an enumeration that C code may hold any number in
abbrev pub orig_any : ℕ
orig_any = 0

abbrev pub orig_system : ℕ
orig_system = 1

abbrev pub orig_user : ℕ
orig_user = 2

abbrev pub orig_file : ℕ
orig_file = 3

-- glite_jp_attrval_t. A string is the list of its bytes, a binary value the list of the bytes that
-- its pointer names; `size` is the separate field of the record.
pub record AttrVal : Type 0 where
  pub name : Bytes
  pub value : Bytes
  pub binary : Bool
  pub size : ℕ
  pub origin : ℕ
  pub origin_detail : Option Bytes
  pub timestamp : ℤ

-- glite_jp_queryop_t
pub data QueryOp : Type 0 where
  undef equal unequal less greater within exists : QueryOp

-- glite_jp_query_rec_t
pub record QueryRec : Type 0 where
  pub attr : Bytes
  pub op : QueryOp
  pub value : Option Bytes
  pub value2 : Option Bytes
  pub binary : Bool
  pub size : ℕ
  pub size2 : ℕ
  pub origin : ℕ

-- glite_jp_error_t; the chain of `reason` pointers is a list, the latest error first.
pub record Error : Type 0 where
  pub code : ℕ
  pub desc : Option Bytes
  pub source : Option Bytes
