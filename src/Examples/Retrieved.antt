-- ===== src/Examples/Retrieved.antt =====
-- Attributes of a job at concrete inputs.
use glite_jp.Base.{
  ℕ, [], ◌∷◌, ◌++◌, Bytes, codes, same, true, Option, some, none, Outcome, ok, err, fault, enoent,
  List, All, ◌≡◌, refl, arith,
}
use glite_jp.Base.{wrap32}
use glite_jp.Base.Decimal.{print_int}
use glite_jp.Types.{AttrVal, orig_file}
use glite_jp.Attr.Plugins.{get_namespace}
use glite_jp.Uploads.{job_path, job_key, split_dot}
use glite_jp.Uploads.Tables.{UserRow, committed, query}
use glite_jp.Feed.Batch.{owner_attr}
use glite_jp.Files.{Storage, open_file, get_job_fname}
use glite_jp.Files.TagCalls.{append_tags, read_tag}
use glite_jp.Files.Stored.{stored}
use glite_jp.Retrieval.Metadata.{info_of, system_attr, get_job_metadata, get_names}
use glite_jp.Retrieval.Plugins.{Plugin, scan_namespaces, process_files}
use glite_jp.Retrieval.Plugins.Scanned.{Unread}
use glite_jp.Retrieval.Attributes.{answer, get_attrs}
use glite_jp.Retrieval.Attributes.Written.{tags_of, get_attrs-append_tags}
use glite_jp.Examples.Storage.{storage, a_job, a_key, key_found}
use glite_jp.Examples.Files.{note, blob, both-IsTag, both-IsRoomy}

abbrev job : Bytes
job = codes "https://lb/abcdefghij"

abbrev alice : UserRow
alice = record { userid = codes "alice"; cert_subj = codes "/CN=Alice" }

abbrev info : Bytes × ℕ
info = (codes "/CN=Alice", 700000)

-- a plugin of the namespace `urn`, which finds one value in each file
abbrev reader : Plugin (Unit {0})
reader = record {
  namespaces = codes "urn" ∷ [];
  served = (codes "lb", codes "urn:lb") ∷ [];
  open_op = λ h uri. some tt;
  attr_op = λ p name. some (record note { name = name; value = codes "found" } ∷ []);
}

abbrev asked : List Bytes
asked = codes "icon" ∷ owner_attr ∷ codes "color" ∷ []

info_found : info_of job (a_job ∷ []) (alice ∷ []) ≡ some info
unfolding same
info_found = refl

not_read :
    All
      (λ (n : Bytes). All (Unread (get_namespace n)) (reader ∷ []))
      (codes "icon" ∷ codes "color" ∷ [])
unfolding same get_namespace
not_read = (((refl, tt), tt), (((refl, tt), tt), tt))

get_attrs-append_tags_example :
    (e : List (Bytes × Bytes)) × (append_tags true 0 storage job
        (note ∷ blob ∷ [])
        (stored (a_job ∷ []) [] (alice ∷ []) [])
      ≡ (ok tt, stored (a_job ∷ []) [] (alice ∷ []) e))
    × (get_attrs
          (Unit {0})
          true
          0
          storage
          job
          4
          (reader ∷ [])
          asked
          (stored (a_job ∷ []) [] (alice ∷ []) e)
        ≡ some (
          answer (
              tags_of (note ∷ blob ∷ []) (codes "icon" ∷ codes "color" ∷ [])
              ++ system_attr info owner_attr ∷ []),
          stored (a_job ∷ []) [] (alice ∷ []) e,
        ))
unfolding same
get_attrs-append_tags_example =
    get_attrs-append_tags 0 storage job (codes "abcdefghij") a_job (a_job ∷ []) [] (alice ∷ []) []
      [] (blob ∷ []) note info (reader ∷ []) asked 4 a_key key_found info_found refl tt both-IsTag
      both-IsRoomy (omega arith) not_read

-- a committed file, with its bytes on the disk
abbrev with_file : Bytes → Storage
with_file name =
    stored (a_job ∷ [])
      (record {
        jobid = codes "abcdefghij";
        filename = name;
        int_path = [];
        ext_url = [];
        state = committed;
        deadline = none;
        ul_userid = codes "alice";
      }
        ∷ [])
      (alice ∷ [])
      ((
        job_path storage.internal_path (codes "alice") 700000 (codes "abcdefghij") ++ b'/' ∷ name,
        [],
      )
        ∷ [])

abbrev found_in : Option (Outcome (List AttrVal) × Storage) → Option (Outcome (List AttrVal))
found_in none = none
found_in (some r) = some r.0

-- The value of the plugin has its origin noted.
from_file :
    found_in (
      get_attrs
        (Unit {0})
        true
        2
        storage
        job
        2
        (reader ∷ [])
        (codes "urn:x" ∷ [])
        (with_file (codes "lb")))
    ≡ some (
        ok (
          record note {
            name = codes "urn:x";
            value = codes "found";
            origin = orig_file;
            origin_detail = some (codes "urn:lb ");
          }
          ∷ []))
unfolding get_attrs get_job_metadata same read_tag open_file get_job_fname job_key query print_int
    wrap32 scan_namespaces get_namespace process_files get_names split_dot
from_file = refl

-- A file with a name is named by memory that is freed.
named_file :
    found_in (
      get_attrs
        (Unit {0})
        true
        2
        storage
        job
        2
        (reader ∷ [])
        (codes "urn:x" ∷ [])
        (with_file (codes "lb.1")))
    ≡ some fault
unfolding get_attrs get_job_metadata same read_tag open_file get_job_fname job_key query print_int
    wrap32 scan_namespaces get_namespace process_files get_names split_dot
named_file = refl

nothing_found :
    found_in
      (get_attrs (Unit {0}) true 2 storage job 2 [] (codes "urn:x" ∷ []) (with_file (codes "lb")))
    ≡ some (err enoent)
unfolding get_attrs get_job_metadata same read_tag open_file get_job_fname job_key query print_int
    wrap32 scan_namespaces get_namespace process_files get_names split_dot
nothing_found = refl
