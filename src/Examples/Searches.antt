-- ===== src/Examples/Searches.antt =====
-- Queries for jobs at concrete values.
use glite_jp.Base.{
  [], ◌∷◌, ◌++◌, Bytes, codes, same, true, false, some, none, ok, All, ◌≡◌, ◌↔◌, refl,
}
use glite_jp.Types.{equal, exists}
use glite_jp.Examples.Attrs.{plain}
use glite_jp.Index.Search.Request.{IndexCond, string_of, same_case, jobid_attr, check_conditions}
use glite_jp.Index.Search.{
  Trio, attr2id, get_sql_or, get_sql_cond, jobs_query, select_text, table_list, or_loop,
}
use glite_jp.Index.Search.Checks.{Known, check_conditions-Known}
use glite_jp.Index.Search.Text.{Resolved, IsResolved, clause, jobid_behind}

-- what the library is taken to print for these texts, which need no escape
abbrev pub printing : Trio
printing = record { escape = λ s. s; null = codes "(nil)" }

abbrev hash : Bytes → Bytes
hash s = codes "h"

-- any value of the attribute
abbrev has_host : IndexCond
has_host = record {
  attr = some (codes "lb:host");
  origin = some 1;
  records = record { op = exists; value = none; value2 = none } ∷ [];
}

abbrev host : Resolved
host = record { cond = has_host; name = codes "lb:host"; inner = [] }

abbrev one_job : IndexCond
one_job = record {
  attr = some jobid_attr;
  origin = none;
  records = record { op = equal; value = some (string_of (codes "j1")); value2 = none } ∷ [];
}

host-IsResolved : IsResolved plain [] printing hash host
unfolding same_case same get_sql_or or_loop
host-IsResolved = record { named = refl; elsewhere = refl; read = refl }

jobid-jobid : same_case jobid_attr jobid_attr ≡ true
unfolding same_case same
jobid-jobid = refl

one_job_text :
    get_sql_or plain [] printing hash jobid_attr one_job ≡ ok (some (codes "jobs.dg_jobid = 'j1'"))
unfolding get_sql_or or_loop same_case same get_sql_cond
one_job_text = refl

check_conditions-Known_example :
    (check_conditions (codes "LB:host" ∷ []) (has_host ∷ []) (some (codes "lb:HOST") ∷ []) ≡ false)
    ↔ (All (Known (codes "LB:host" ∷ [])) (some (codes "lb:host") ∷ [])
        × All (Known (codes "LB:host" ∷ [])) (some (codes "lb:HOST") ∷ []))
check_conditions-Known_example =
    check_conditions-Known (codes "LB:host" ∷ []) (has_host ∷ []) (some (codes "lb:HOST") ∷ [])

jobid_behind_example :
    jobs_query plain [] printing hash true [] (has_host ∷ one_job ∷ [])
    ≡ ok (
        select_text plain [] printing hash true []
          (table_list plain [] printing hash
            (attr2id plain [] printing hash (codes "lb:host") ∷ []))
          ((codes " " ++ clause plain [] printing hash host) ++ codes " (jobs.dg_jobid = 'j1')"))
jobid_behind_example =
    jobid_behind plain [] printing hash true [] host one_job jobid_attr 106
      (codes "obs.dg_jobid = 'j1'") host-IsResolved refl jobid-jobid one_job_text
