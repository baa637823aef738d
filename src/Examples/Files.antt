-- ===== src/Examples/Files.antt =====
-- Open files and the file of tags, at concrete inputs.
use glite_jp.Base.{
  [], ◌∷◌, map, codes, true, false, some, none, ok, All, ◌≡◌, refl, arith, pos, negsuc,
}
use glite_jp.Base.Decimal.{print_int}
use glite_jp.Types.{AttrVal, orig_user}
use glite_jp.Handle.{Handle}
use glite_jp.Tags.{tagsread, record_body}
use glite_jp.Tags.Format.{IsTag, reread_tag}
use glite_jp.Tags.File.{IsRoomy}
use glite_jp.Tags.Appending.{IsNewFile, tagsread-append_tags, append_tags}

-- opened with O_RDWR
abbrev fresh : Handle
fresh = record {
  filename = some (codes "tags");
  filemode = 2;
  filedata = [];
  eof = 0;
  modified = false;
}

abbrev pub note : AttrVal
note = record {
  name = codes "color";
  value = codes "red";
  binary = false;
  size = 0;
  origin = orig_user;
  origin_detail = none;
  timestamp = pos 17;
}

abbrev pub blob : AttrVal
blob = record note {
  name = codes "icon";
  value = 0 ∷ 255 ∷ [];
  binary = true;
  size = 2;
  timestamp = negsuc 0;
}

pub note-IsTag : IsTag note
unfolding record_body print_int
note-IsTag = record { named = ground arith; stamped = omega arith; short = omega arith }

blob-IsTag : IsTag blob
unfolding record_body print_int
blob-IsTag = record { named = ground arith; stamped = omega arith; short = omega arith }

pub both-IsTag : All IsTag (note ∷ blob ∷ [])
both-IsTag = (note-IsTag, (blob-IsTag, tt))

fresh-IsNewFile : IsNewFile fresh
fresh-IsNewFile = record {
  opened = refl;
  whole = (refl, omega arith);
  empty = refl;
  writable = omega arith;
}

pub both-IsRoomy : IsRoomy (note ∷ blob ∷ [])
unfolding record_body print_int
both-IsRoomy = omega arith

tagsread-append_tags_example :
    (g : Handle) × (append_tags (note ∷ blob ∷ []) fresh ≡ ok g)
    × (tagsread 4 g ≡ some (ok (0, map reread_tag (note ∷ blob ∷ []))))
tagsread-append_tags_example =
    tagsread-append_tags fresh note (blob ∷ []) fresh-IsNewFile both-IsTag both-IsRoomy
