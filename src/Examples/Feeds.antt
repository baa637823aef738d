-- ===== src/Examples/Feeds.antt =====
-- Conditions of feeds at concrete inputs.
use glite_jp.Base.{[], codes, false, some, none, ok, pos, ◌≡◌, refl, arith, inl}
use glite_jp.Types.{AttrVal, QueryRec, within, orig_any, orig_user}
use glite_jp.Examples.Attrs.{plain}
use glite_jp.Feed.{check_qry_item}
use glite_jp.Feed.Condition.{meets, check_qry_item-meets}

abbrev pub queue_name : AttrVal
queue_name = record {
  name = codes "queue";
  value = codes "long";
  binary = false;
  size = 0;
  origin = orig_user;
  origin_detail = none;
  timestamp = pos 0;
}

abbrev pub between : QueryRec
between = record {
  attr = codes "queue";
  op = within;
  value = some (codes "a");
  value2 = some (codes "lz");
  binary = false;
  size = 0;
  size2 = 0;
  origin = orig_any;
}

check_qry_item-meets_example :
    check_qry_item plain [] between queue_name
    ≡ ok (meets within (codes "long") (codes "a") (codes "lz"))
check_qry_item-meets_example =
    check_qry_item-meets plain [] between queue_name (codes "a") (codes "lz") refl (inl refl) tt
      (λ e. absurd (ground arith)) refl refl refl (λ e. absurd (ground arith))
      (λ e. absurd (ground arith)) (ground arith) (ground arith)
