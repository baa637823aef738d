-- ===== src/Files/Tagged.antt =====
-- `glite_jppsbe_append_tags` and `glite_jppsbe_read_tag` for a job that is registered.
use glite_jp.Base.{
  ℕ, ◌<◌, ◌^◌, length, [], ◌∷◌, ◌++◌, Bytes, same, inl, inr, true, false, Option, some, none,
  Outcome, ok, List, All, ◌≡◌, refl, ap, ◌∙◌, arith,
}
use glite_jp.Base.Act.{after}
use glite_jp.Types.{AttrVal}
use glite_jp.Tags.Format.{IsTag}
use glite_jp.Tags.File.{IsRoomy, IsRoomy-part}
use glite_jp.Handle.{is_minus}
use glite_jp.Uploads.Tables.{JobRow, FileRow, UserRow, job_of}
use glite_jp.Uploads.{Config, job_key, job_path}
use glite_jp.Uploads.Statements.{working, row_found}
use glite_jp.Files.{Storage, contents, put, new_handle, open_file, get_job_fname}
use glite_jp.Files.TagCalls.{tags_class, update_mode, append_to, append_tags, as_eio}
use glite_jp.Files.Stored.{
  HasTags, Others, Opened, stored, Holding, each_lem, put-Others, contents-put,
}

abbrev pub tags_path : Config → Bytes → JobRow → Bytes
tags_path cfg key j = job_path cfg.internal_path j.owner j.reg_time key ++ b'/' ∷ tags_class

pub held_short :
    (ts : List AttrVal) (c : Bytes) → HasTags (some c) ts → IsRoomy ts → length c < 2 ^ 31
held_short ts c (inl (n, z)) r = omega (arith, ap (λ (l : Bytes). length l) n)
held_short ts c (inr f) r = omega (arith, ap (λ (l : Bytes). length l) f)

pub held_fits :
    (ts : List AttrVal) (c : Bytes) → HasTags (some c) ts → IsRoomy ts → is_minus (length c) ≡ false
held_fits ts c w r = ground (arith, held_short ts c w r)

module _ (null_code : ℕ) (cfg : Config) (job key : Bytes) (j : JobRow) (js : List JobRow)
    (fs : List FileRow) (us : List UserRow) where
  abbrev pub path : Bytes
  path = tags_path cfg key j

  pub fname_lem :
      job_key job ≡ ok key
      → job_of key js ≡ some j
      → get_job_fname cfg job tags_class none (working js fs us) ≡ (ok path, working js fs us)
  unfolding get_job_fname
  fname_lem hk ho = rw (hk, row_found (λ s. job_of key s.jobs) js fs us, ho) refl

  pub new_lem :
      (d : List (Bytes × Bytes)) (ts : List AttrVal) (c : Bytes)
      → contents path d ≡ some c
      → HasTags (some c) ts
      → IsRoomy ts
      → Opened path d ts (new_handle true null_code update_mode path c)
  new_lem d ts c h w r = record {
    named = refl;
    kept = λ e. h;
    whole = (refl, held_short ts c w r);
    tags = elim w [
      | inl (n, z) ↦ inl (
        record {
          opened = refl;
          whole = (refl, held_short ts c (inl (n, z)) r);
          empty = n;
          writable = λ e. absurd (ground arith);
        },
        z,
      )
      | inr f ↦ inr (record { opened = refl; whole = (refl, held_short ts c (inr f) r); held = f })
    ];
  }

  -- The file is opened, and is created where it is missing.
  open_lem :
      (d : List (Bytes × Bytes)) (ts : List AttrVal) (o : Option Bytes)
      → job_key job ≡ ok key
      → job_of key js ≡ some j
      → contents path d ≡ o
      → HasTags o ts
      → IsRoomy ts
      → (e : List (Bytes × Bytes)) × (c : Bytes) × (open_file true null_code cfg job tags_class none
            update_mode
            (stored js fs us d)
          ≡ (ok (some (new_handle true null_code update_mode path c)), stored js fs us e))
        × Opened path e ts (new_handle true null_code update_mode path c)
        × Others path d e
  unfolding open_file
  open_lem d ts none hk ho h w r = (
    put path [] d,
    [],
    rw (fname_lem hk ho, h) refl,
    new_lem (put path [] d) ts [] (contents-put path [] d) (inl (refl, w)) r,
    put-Others path [] d,
  )
  open_lem d ts (some c) hk ho h w r =
      (d, c, rw (fname_lem hk ho, h, held_fits ts c w r) refl, new_lem d ts c h w r, λ q n. refl)

  pub append_lem :
      (d : List (Bytes × Bytes)) (ts xs : List AttrVal)
      → job_key job ≡ ok key
      → job_of key js ≡ some j
      → HasTags (contents path d) ts
      → All IsTag xs
      → IsRoomy (ts ++ xs)
      → Holding null_code js fs us path
          (append_tags true null_code cfg job xs (stored js fs us d))
          d
          (ts ++ xs)
  unfolding append_tags
  append_lem d ts xs hk ho w v r =
      let (e, c, he, we, oe) =
        open_lem d ts (contents path d) hk ho refl w (IsRoomy-part ts xs r) in
      let (f, hf, wf, of) =
        each_lem null_code js fs us path xs (new_handle true null_code update_mode path c) e ts we v
          r in
      (
        f,
        ap (λ (r : Outcome (Option _) × Storage). after (as_eio r) (append_to true null_code xs)) he
            ∙ hf,
        wf,
        λ q n. of q n ∙ oe q n,
      )

  -- If zlib takes the modes "r+" and "w+", no call of gzopen fails and the database works, then for a
  -- registered job whose file of tags, if there is one, is empty or holds the tags `ts`, adding tags
  -- that `IsTag` admits succeeds, if the file stays shorter than 2 ^ 31 bytes. The file, which is
  -- created if it is missing, then holds them behind the others, and no other file has changed.
  pub append_tags-HasTags :
      (d : List (Bytes × Bytes)) (ts xs : List AttrVal) (q : Bytes)
      → job_key job ≡ ok key
      → job_of key js ≡ some j
      → HasTags (contents (tags_path cfg key j) d) ts
      → All IsTag xs
      → IsRoomy (ts ++ xs)
      → same q (tags_path cfg key j) ≡ false
      → (e : List (Bytes × Bytes)) × (append_tags true null_code cfg job xs (stored js fs us d)
          ≡ (ok tt, stored js fs us e))
        × HasTags (contents (tags_path cfg key j) e) (ts ++ xs)
        × (contents q e ≡ contents q d)
  append_tags-HasTags d ts xs q hk ho w v r n =
      let (e, h, k, o) = append_lem d ts xs hk ho w v r in (e, h, k, o q n)
