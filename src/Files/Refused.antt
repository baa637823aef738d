-- ===== src/Files/Refused.antt =====
-- Tags where zlib does not take the modes "r+" and "w+".
use glite_jp.Base.{
  ℕ, Bytes, Bool-cases, inl, inr, false, none, Outcome, ok, err, fault, List, ◌==◌, ◌≡◌, ◌≢◌, refl,
}
use glite_jp.Base.Act.{after}
use glite_jp.Types.{AttrVal}
use glite_jp.Uploads.{Config}
use glite_jp.Files.{Storage, get_job_fname, on_db, opened_as, handle_of, open_file}
use glite_jp.Files.TagCalls.{tags_class, update_mode, append_tags, append_to, as_eio}

module _ (null_code : ℕ) (cfg : Config) (job : Bytes) (ts : List AttrVal) where
  -- a result that is no success, with this disk
  abbrev Kept : List (Bytes × Bytes) → Outcome (Unit {0}) × Storage → Type 0
  Kept d r = (r.0 ≢ ok tt) × (r.1.disk ≡ d)

  unopened :
      (m : Outcome Bytes) (s : Storage)
      → Kept s.disk (
          after
            (as_eio (
              after
                (m, s)
                λ path u.
                  after
                    (opened_as false null_code update_mode path u)
                    (handle_of false null_code update_mode path)))
            (append_to false null_code ts))
  unopened (ok p) s = elim (Bool-cases (null_code == 0)) [
    | inl e ↦ rw e (λ k. cc, refl)
    | inr e ↦ rw e (λ k. cc, refl)
  ]
  unopened (err e) s = (λ k. cc, refl)
  unopened fault s = (λ k. cc, refl)

  -- If zlib refuses the modes "r+" and "w+", then whatever is stored and fails, no call to add tags
  -- succeeds, and the disk stays as it was.
  pub append_tags_refused :
      (s : Storage)
      → ((append_tags false null_code cfg job ts s).0 ≢ ok tt)
        × ((append_tags false null_code cfg job ts s).1.disk ≡ s.disk)
  unfolding append_tags open_file
  append_tags_refused s =
      unopened (get_job_fname cfg job tags_class none s.db).0
        (on_db (get_job_fname cfg job tags_class none) s).1
