-- ===== src/Index/Search/Joined.antt =====
-- The text of the query of get_jobids in org.glite.jp.index/src/soap_ops.c, written out.
use glite_jp.Base.{[], ◌∷◌, ◌++◌, Bytes, codes, same, Bool, true, false, ◌⊎◌, List, All, ◌≡◌}

abbrev pub Named : Bytes → List Bytes → Type 0
Named x [] = ⊥
Named x (y ∷ l) = (y ≡ x) ⊎ Named x l

abbrev pub NoRepeats : List Bytes → Type 0
NoRepeats [] = Unit
NoRepeats (x ∷ l) = All (λ (y : Bytes). same x y ≡ false) l × NoRepeats l

abbrev pub from_tables : List Bytes → Bytes
from_tables [] = []
from_tables (x ∷ l) = codes ", attr_" ++ (x ++ from_tables l)

-- With the authorization switched off the owner of the job is not asked for.
abbrev pub query_text : Bool → Bytes → List Bytes → Bytes → Bytes
query_text true peer l conditions =
    codes "SELECT DISTINCT dg_jobid,ps FROM jobs"
    ++ (from_tables l ++ (codes " WHERE" ++ conditions))
query_text false peer l conditions =
    codes "SELECT DISTINCT dg_jobid,ps FROM jobs,users"
    ++ (from_tables l
        ++ (codes " WHERE (jobs.ownerid = users.userid AND users.cert_subj='"
            ++ (peer ++ (codes "') AND" ++ conditions))))
