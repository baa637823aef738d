-- ===== src/Examples/Queries.antt =====
-- The queries of the index server at concrete values.
use glite_jp.Base.{
  [], ◌∷◌, Bytes, codes, List, All, map, ok, ◌≡◌, refl, arith, none, some, false, true,
}
use glite_jp.Types.{QueryRec, unequal, within, equal}
use glite_jp.Index.Queries.{queries_serialize, queries_deserialize, array_add, array_init}
use glite_jp.Index.Queries.Buffers.{Adds, array_add-Adds}
use glite_jp.Index.Queries.Writing.{IsQuery, stored}
use glite_jp.Index.Queries.RoundTrip.{deserialize-serialize}

abbrev between : QueryRec
between = record {
  attr = codes "owner";
  op = within;
  value = some (codes "a");
  value2 = some (codes "zz");
  binary = false;
  size = 0;
  size2 = 0;
  origin = 0;
}

abbrev differs : QueryRec
differs = record between { op = unequal }

abbrev binary_equal : QueryRec
binary_equal = record between { op = equal; binary = true; size = 1; value2 = none }

abbrev queries : List QueryRec
queries = between ∷ binary_equal ∷ []

queries-IsQuery : All IsQuery queries
queries-IsQuery = (
  record {
    set = λ e. cc e;
    sized = tt;
    sized2 = tt;
    short = omega arith;
    value_short = omega arith;
    value2_short = omega arith;
  },
  (
    record {
      set = λ e. cc e;
      sized = refl;
      sized2 = refl;
      short = omega arith;
      value_short = omega arith;
      value2_short = omega arith;
    },
    tt,
  ),
)

deserialize-serialize_example :
    (s : Bytes) × (queries_serialize queries ≡ ok s)
    × (queries_deserialize s ≡ ok (map stored queries))
deserialize-serialize_example = deserialize-serialize queries queries-IsQuery

array_add-Adds_example :
    Adds (array_init 2) (codes "abcdefg") (array_add (array_init 2) (codes "abcdefg"))
array_add-Adds_example =
    array_add-Adds (array_init 2) (codes "abcdefg")
      (record { roomy = omega arith; within = omega arith })
