-- ===== src/Examples/Attrs.antt =====
-- Attribute values, their order and their text in the database, at concrete inputs.
use glite_jp.Base.{
  ℕ, ◌≤◌, [], Bytes, codes, true, false, Option, some, none, ok, Ordering, strcmp, leb, length,
  if◌then◌else◌, ◌≡◌, ◌≢◌, refl, arith, pos, wrap32,
}
use glite_jp.Base.Decimal.{print_int}
use glite_jp.Types.{AttrVal, orig_user}
use glite_jp.Attr.Escape.{escape_colon}
use glite_jp.Attr.Compare.{fb_cmp, memcmp_sized, by_size}
use glite_jp.Attr.Codec.{Base64, fb_to_db_full, fb_to_db_index, fb_from_db}
use glite_jp.Attr.Codec.Index.{strcmp-fb_to_db_index}
use glite_jp.Attr.Codec.RoundTrip.{fb_from_db-to_db, reread}
use glite_jp.Attr.Plugins.{TypePlugin, get_plugin, find_plugin, fallback_plugin, attrval_to_db_full}

-- a value that already is the text of itself, for as long as it fits
abbrev pub plain_text : Bytes → ℕ → Option Bytes
plain_text v m = if leb (length v) m then some v else none

pub plain_fits : (v e : Bytes) (m : ℕ) → plain_text v m ≡ some e → length e ≤ m
plain_fits v e m h = ground arith

pub plain_back :
    (v e : Bytes) (m n : ℕ) → plain_text v m ≡ some e → length e ≤ n → plain_text e n ≡ some v
plain_back v e m n h k = ground arith

abbrev pub plain : Base64
plain = record {
  encode = plain_text;
  decode = plain_text;
  leftover = λ s. s;
  encode_fits = plain_fits;
  decode_encode = plain_back;
}

-- an encoding that has no text, and accepts none
abbrev no_text : Bytes → ℕ → Option Bytes
no_text v m = none

nothing_fits : (v e : Bytes) (m : ℕ) → no_text v m ≡ some e → length e ≤ m
nothing_fits v e m h = ground arith

never_decoded : (v e : Bytes) (m n : ℕ) → no_text v m ≡ some e → length e ≤ n → no_text e n ≡ some v
never_decoded v e m n h k = ground arith

abbrev spoiled : Base64
spoiled = record {
  encode = no_text;
  decode = no_text;
  leftover = λ s. s;
  encode_fits = nothing_fits;
  decode_encode = never_decoded;
}

abbrev owner : AttrVal
owner = record {
  name = codes "http://egee.cesnet.cz/en/Schema/LB/Attributes:owner";
  value = codes "/CN=a:b";
  binary = false;
  size = 0;
  origin = orig_user;
  origin_detail = some (codes "a:b\\c");
  timestamp = pos 1132900000;
}

abbrev blob : Bytes → AttrVal
blob v = record owner { value = v; binary = true; size = length v }

abbrev scratch : AttrVal
scratch = record owner { value = []; origin_detail = none; timestamp = pos 0 }

abbrev owner_text : Bytes
owner_text = codes "S:1132900000:U:a\\:b\\\\c:/CN=a:b"

owner_written : fb_to_db_full plain owner ≡ some owner_text
unfolding fb_to_db_full print_int escape_colon wrap32
owner_written = refl

fb_from_db-to_db_example : fb_from_db plain owner_text scratch ≡ ok (reread owner scratch)
fb_from_db-to_db_example =
    fb_from_db-to_db plain owner scratch owner_text (λ e. absurd (ground arith)) owner_written

first_below : fb_cmp (blob []) (blob (codes "a")) ≢ ok Ordering.gt
unfolding fb_cmp memcmp_sized by_size strcmp
first_below = ground arith

second_below : fb_cmp (blob (codes "a")) (blob (codes "b")) ≢ ok Ordering.gt
unfolding fb_cmp memcmp_sized by_size strcmp
second_below = ground arith

abbrev served : Bytes → TypePlugin
served ns = record {
  namespace = ns;
  cmp = none;
  to_db_full = none;
  to_db_index = none;
  from_db = none;
  db_type_full = none;
  db_type_index = none;
}

owner_sent : attrval_to_db_full plain [] owner ≡ some owner_text
unfolding attrval_to_db_full get_plugin find_plugin fb_to_db_full fallback_plugin
owner_sent = owner_written

strcmp-fb_to_db_index_example :
    strcmp (fb_to_db_index (blob []) 3) (fb_to_db_index (blob (codes "a")) 3) ≢ Ordering.gt
strcmp-fb_to_db_index_example =
    strcmp-fb_to_db_index (blob []) (blob (codes "a")) 3 (λ e. refl) (λ e. refl) refl first_below
