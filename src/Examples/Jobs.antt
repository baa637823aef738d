-- ===== src/Examples/Jobs.antt =====
-- Jobs of the index database at concrete values.
use glite_jp.Base.{[], ◌∷◌, Bytes, codes, same, false, some, ok, ◌≡◌, refl}
use glite_jp.Index.Feeds.Table.{FeedRow}
use glite_jp.Index.Jobs.Table.{IndexJob, JobsDb, has_name, has_subject}
use glite_jp.Index.Jobs.{lazy_insert_job}
use glite_jp.Index.Jobs.Lazy.{IsListed, working, lazy_insert_job-IsListed}

abbrev keyed : Bytes → Bytes
keyed s = 107 ∷ s

abbrev source_feed : FeedRow
source_feed = record {
  uniqueid = 1;
  feedid = some (codes "abc");
  state = 3;
  locked = false;
  source = codes "https://ps1";
  expires = some 50;
}

abbrev old_job : IndexJob
old_job = record {
  jobid = codes "kj1";
  dg_jobid = codes "j1";
  ownerid = codes "kann";
  ps = codes "https://ps1";
  columns = [];
}

abbrev one_known : JobsDb
one_known = record {
  jobs = old_job ∷ [];
  users = [];
  values = [];
  feeds = source_feed ∷ [];
  outages = [];
}

lazy_insert_job-IsListed_example :
    (t : JobsDb) × (lazy_insert_job keyed
        (codes "https://ps1")
        (some (codes "j2"))
        (some (codes "bob"))
        (working keyed one_known)
      ≡ (ok tt, t))
    × IsListed keyed (codes "j2") (codes "bob") t
    × (lazy_insert_job keyed (codes "https://ps2") (some (codes "j2")) (some (codes "bob")) t
        ≡ (ok tt, t))
unfolding has_name has_subject same
lazy_insert_job-IsListed_example =
    lazy_insert_job-IsListed keyed (codes "https://ps1") (codes "https://ps2") (codes "j2")
      (codes "bob") one_known (λ e. refl) (λ e. refl)
