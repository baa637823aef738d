-- ===== src/Files/Stored.antt =====
-- Tags that are added to the file of a job.
use glite_jp.Base.{
  take, ℕ, [], ◌∷◌, ◌++◌, Bytes, same, same_refl, same_iff, Bool-cases, inl, inr, true, false,
  Option, some, none, Outcome, ok, List, All, append_assoc, append-nil, ◌≡◌, ◌⊎◌, refl, sym, ap,
  ◌∙◌, subst, arith,
}
use glite_jp.Types.{AttrVal}
use glite_jp.Handle.{Handle, is_minus}
use glite_jp.Handle.Laws.{IsWhole, take_short}
use glite_jp.Tags.{tags_magic, tag_append}
use glite_jp.Tags.Word.{be32}
use glite_jp.Tags.Format.{IsTag}
use glite_jp.Tags.File.{IsTagFile, tag_records, IsRoomy, IsRoomy-before}
use glite_jp.Tags.Appending.{
  IsNewFile, tag_append-IsTagFile, tag_append-IsNewFile, tag_append_frame,
}
use glite_jp.Uploads.Tables.{JobRow, FileRow, UserRow}
use glite_jp.Uploads.Statements.{working}
use glite_jp.Files.{Storage, contents, put, close_file}
use glite_jp.Files.TagCalls.{append_each, as_eio}

-- What the file of tags holds: no tags where it is missing or empty.
abbrev pub HasTags : Option Bytes → List AttrVal → Type 0
HasTags none ts = ts ≡ []
HasTags (some c) ts = (c ≡ []) × (ts ≡ []) ⊎ (c ≡ be32 tags_magic ++ tag_records ts)

-- this file may have changed, and no other
abbrev pub Others : Bytes → List (Bytes × Bytes) → List (Bytes × Bytes) → Type 0
Others path d e = (q : Bytes) → same q path ≡ false → contents q e ≡ contents q d

pub contents-put :
    (path c : Bytes) (d : List (Bytes × Bytes)) → contents path (put path c d) ≡ some c
contents-put path c [] = rw (same_refl path) refl
contents-put path c ((p, x) ∷ d) = elim (Bool-cases (same path p)) [
  | inl e ↦ rw (e, contents) (rw e refl)
  | inr e ↦ rw (e, contents) (rw e (contents-put path c d))
]

pub put-Others : (path c : Bytes) (d : List (Bytes × Bytes)) → Others path d (put path c d)
put-Others path c [] q h = rw h refl
put-Others path c ((p, x) ∷ d) q h = elim (Bool-cases (same path p)) [
  | inl e ↦ rw (e, contents, subst (λ (y : Bytes). same q y ≡ false) ((same_iff path p).0 e) h) refl
  | inr e ↦ rw (e, contents, put-Others path c d q h) refl
]

pub not_minus : (h : Handle) → IsWhole h → is_minus h.eof ≡ false
not_minus h (w, s) = ground arith

-- An open file of tags.
pub record Opened (path : Bytes) (d : List (Bytes × Bytes)) (ts : List AttrVal) (h : Handle)
    : Type 0 where
  pub named : h.filename ≡ some path
  pub kept : h.modified ≡ false → contents path d ≡ some h.filedata
  pub whole : IsWhole h
  pub tags : IsNewFile h × (ts ≡ []) ⊎ IsTagFile h ts

abbrev pub stored : List JobRow → List FileRow → List UserRow → List (Bytes × Bytes) → Storage
stored js fs us d = record { db = working js fs us; disk = d; outages = [] }

module _ (null_code : ℕ) (js : List JobRow) (fs : List FileRow) (us : List UserRow)
    (path : Bytes) where
  -- The call succeeds, and the file then holds these tags.
  abbrev pub Holding : Outcome (Unit {0}) × Storage → List (Bytes × Bytes) → List AttrVal → Type 0
  Holding r d ts =
      (e : List (Bytes × Bytes)) × (r ≡ (ok tt, stored js fs us e))
      × HasTags (contents path e) ts
      × Others path d e

  held_lem :
      (h : Handle) (d : List (Bytes × Bytes)) (ts : List AttrVal)
      → Opened path d ts h
      → HasTags (some h.filedata) ts
  held_lem h d ts w = elim w.tags [ inl (n, z) ↦ inl (n.empty, z) | inr f ↦ inr f.held ]

  close_lem :
      (h : Handle) (d : List (Bytes × Bytes)) (ts : List AttrVal)
      → Opened path d ts h
      → Holding (as_eio (close_file true null_code h (stored js fs us d))) d ts
  unfolding close_file
  close_lem h d ts w = elim (Bool-cases h.modified) [
    | inl m ↦ (
      put path (take h.eof h.filedata) (put path [] d),
      rw (m, w.named, not_minus h w.whole) refl,
      subst (λ (o : Option Bytes). HasTags o ts)
          (sym (
            contents-put path (take h.eof h.filedata) (put path [] d)
            ∙ ap some (take_short h.eof h.filedata (omega (arith, w.whole.0)))))
          (held_lem h d ts w),
      λ q n. put-Others path (take h.eof h.filedata) (put path [] d) q n ∙ put-Others path [] d q n,
    )
    | inr m ↦ (
      d,
      rw m refl,
      subst (λ (o : Option Bytes). HasTags o ts) (sym (w.kept m)) (held_lem h d ts w),
      λ q n. refl,
    )
  ]

  changed_lem :
      (h g : Handle) (d : List (Bytes × Bytes)) (ts vs : List AttrVal) (t : AttrVal)
      → Opened path d ts h
      → tag_append h t ≡ ok g
      → IsTagFile g vs
      → Opened path d vs g
  changed_lem h g d ts vs t w e f =
      let (n, m) = tag_append_frame h g t e in
      record { named = n ∙ w.named; kept = λ k. cc; whole = f.whole; tags = inr f }

  step_lem :
      (h : Handle) (d : List (Bytes × Bytes)) (ts : List AttrVal) (t : AttrVal)
      → Opened path d ts h
      → IsTag t
      → IsRoomy (ts ++ t ∷ [])
      → (g : Handle) × (tag_append h t ≡ ok g) × Opened path d (ts ++ t ∷ []) g
  step_lem h d ts t w v r = elim w.tags [
    | inl (n, z) ↦
        let (g, e, f) =
          tag_append-IsNewFile h t n v (subst (λ (l : List AttrVal). IsRoomy (l ++ t ∷ [])) z r) in
        (
          g,
          e,
          changed_lem h g d ts (ts ++ t ∷ []) t w e
              (subst (λ (l : List AttrVal). IsTagFile g (l ++ t ∷ [])) (sym z) f),
        )
    | inr f ↦
        let (g, e, k) = tag_append-IsTagFile h ts t f v r in
        (g, e, changed_lem h g d ts (ts ++ t ∷ []) t w e k)
  ]

  -- With all tags added there is only the closing left.
  pub each_closed :
      (xs : List AttrVal) (h : Handle) (d : List (Bytes × Bytes)) (ts : List AttrVal)
      → Opened path d ts h
      → All IsTag xs
      → IsRoomy (ts ++ xs)
      → (g : Handle) × ((s : Storage)
          → append_each true null_code xs h s ≡ as_eio (close_file true null_code g s))
        × Opened path d (ts ++ xs) g
  each_closed [] h d ts w v r =
      (h, λ s. refl, subst (λ (l : List AttrVal). Opened path d l h) (sym (append-nil ts)) w)
  each_closed (x ∷ xs) h d ts w (v, vs) r =
      let (g, e, k) = step_lem h d ts x w v (IsRoomy-before ts xs x r) in
      let (f, c, o) =
        each_closed xs g d (ts ++ x ∷ []) k vs
          (subst IsRoomy (sym (append_assoc ts (x ∷ []) xs)) r) in
      (
        f,
        λ s. rw e (c s),
        subst (λ (l : List AttrVal). Opened path d l f) (append_assoc ts (x ∷ []) xs) o,
      )

  pub each_lem :
      (xs : List AttrVal) (h : Handle) (d : List (Bytes × Bytes)) (ts : List AttrVal)
      → Opened path d ts h
      → All IsTag xs
      → IsRoomy (ts ++ xs)
      → Holding (append_each true null_code xs h (stored js fs us d)) d (ts ++ xs)
  each_lem xs h d ts w v r =
      let (g, c, o) = each_closed xs h d ts w v r in
      rw (c (stored js fs us d)) (close_lem g d (ts ++ xs) o)
