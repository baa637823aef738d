-- ===== src/Tags/File.antt =====
-- The tags file refines a list of tags: `tag_append` adds one at the end, and `tagsread` returns
-- them all in order.
use glite_jp.Base.{
  ℕ, zero, suc, ◌+◌, ◌-◌, ◌≤◌, ◌<◌, ◌^◌, [], ◌∷◌, ◌++◌, Bytes, List, map, some, Outcome, ok, All,
  length, length-append, ◌≡◌, refl, sym, ap, ◌∙◌, append_assoc, append-nil, arith, subst, same,
}
use glite_jp.Types.{AttrVal}
use glite_jp.Handle.{Handle, pread}
use glite_jp.Handle.Laws.{IsOpen, IsWhole, pread_part, pread_end}
use glite_jp.Tags.{tags_magic, record_body, read_body, tags_loop, tagsread, ReadResult, with_magic}
use glite_jp.Tags.Word.{be32, of_be32_lem}
use glite_jp.Tags.Format.{IsTag, reread_tag, parse-record_body}

abbrev pub tag_record : AttrVal → Bytes
tag_record t = be32 (length (record_body t)) ++ record_body t

abbrev pub tag_records : List AttrVal → Bytes
tag_records [] = []
tag_records (t ∷ ts) = tag_record t ++ tag_records ts

-- The file of these tags has a length that an int holds.
abbrev pub IsRoomy : List AttrVal → Type 0
IsRoomy ts = 4 + length (tag_records ts) < 2 ^ 31

-- The open file holds these tags, in this order.
pub record IsTagFile (h : Handle) (ts : List AttrVal) : Type 0 where
  pub opened : IsOpen h
  pub whole : IsWhole h
  pub held : h.filedata ≡ be32 tags_magic ++ tag_records ts

pub tag_records-append :
    (ts : List AttrVal) (t : AttrVal) → tag_records (ts ++ t ∷ []) ≡ tag_records ts ++ tag_record t
tag_records-append [] t = append-nil (tag_record t)
tag_records-append (u ∷ ts) t =
    ap (λ (s : Bytes). tag_record u ++ s) (tag_records-append ts t)
    ∙ sym (append_assoc (tag_record u) (tag_records ts) (tag_record t))

longer :
    (ts us : List AttrVal) (t : AttrVal)
    → length (tag_records (ts ++ t ∷ [])) ≤ length (tag_records (ts ++ t ∷ us))
longer [] us t =
    omega (arith, length-append (tag_record t) (tag_records us), length-append (tag_record t) [])
longer (x ∷ ts) us t = omega (
  arith,
  length-append (tag_record x) (tag_records (ts ++ t ∷ us)),
  length-append (tag_record x) (tag_records (ts ++ t ∷ [])),
  longer ts us t,
)

pub IsRoomy-before :
    (ts us : List AttrVal) (t : AttrVal) → IsRoomy (ts ++ t ∷ us) → IsRoomy (ts ++ t ∷ [])
IsRoomy-before ts us t h = omega (arith, longer ts us t)

longer_list : (ts us : List AttrVal) → length (tag_records ts) ≤ length (tag_records (ts ++ us))
longer_list [] us = omega arith
longer_list (x ∷ ts) us = omega (
  arith,
  length-append (tag_record x) (tag_records (ts ++ us)),
  length-append (tag_record x) (tag_records ts),
  longer_list ts us,
)

pub IsRoomy-part : (ts us : List AttrVal) → IsRoomy (ts ++ us) → IsRoomy ts
IsRoomy-part ts us h = omega (arith, longer_list ts us)

body_read :
    (h : Handle) (body : Bytes) (f off : ℕ)
    → pread h (length body - 0) (off + 0) ≡ ok body
    → read_body (suc (suc f)) h (length body) off [] ≡ some (ok body)
unfolding read_body
body_read h [] f off e = refl
body_read h (c ∷ b) f off e = ground arith

-- a record's body, at its place
body_at :
    (h : Handle) (pre body post : Bytes) (f : ℕ)
    → IsOpen h
    → IsWhole h
    → h.filedata ≡ pre ++ (body ++ post)
    → read_body (suc (suc f)) h (length body) (length pre) [] ≡ some (ok body)
body_at h pre body post f o w e = body_read h body f (length pre) (
    subst (λ (n : ℕ). pread h n (length pre + 0) ≡ ok body) (omega arith)
      (subst (λ (n : ℕ). pread h (length body) n ≡ ok body) (omega arith)
        (pread_part h pre body post o w e)))

-- the length word of a record, at its place
word_at :
    (h : Handle) (pre post : Bytes) (n : ℕ)
    → IsOpen h
    → IsWhole h
    → h.filedata ≡ pre ++ (be32 n ++ post)
    → pread h 4 (length pre) ≡ ok (be32 n)
word_at h pre post n o w e = pread_part h pre (be32 n) post o w e

-- one round of the loop, over a whole record
loop_round :
    (h : Handle) (pre post : Bytes) (t : AttrVal) (f : ℕ) (acc : List AttrVal)
    → IsOpen h
    → IsWhole h
    → IsTag t
    → h.filedata ≡ pre ++ (tag_record t ++ post)
    → tags_loop (suc (suc (suc f))) h (length pre) acc
      ≡ tags_loop (suc (suc f)) h (length (pre ++ tag_record t)) (acc ++ reread_tag t ∷ [])
unfolding tags_loop
loop_round h pre post t f acc o w v e =
    rw
      (
        word_at h pre (record_body t ++ post) _ o w (e ∙ spread),
        of_be32_lem _ v.short,
        body,
        parse-record_body t v,
      )
      (ap (λ (n : ℕ). tags_loop (suc (suc f)) h n (acc ++ reread_tag t ∷ [])) past)
  where
    spread :
        pre ++ (tag_record t ++ post)
        ≡ pre ++ (be32 (length (record_body t)) ++ (record_body t ++ post))
    spread = refl

    before : Bytes
    before = pre ++ be32 (length (record_body t))

    body :
        read_body (suc (suc f)) h (length (record_body t)) (length pre + 4) []
        ≡ some (ok (record_body t))
    body =
        subst
          (λ (n : ℕ).
            read_body (suc (suc f)) h (length (record_body t)) n [] ≡ some (ok (record_body t)))
          (length-append pre (be32 (length (record_body t))))
          (body_at h before (record_body t) post f o w
            (e ∙ sym (append_assoc pre (be32 (length (record_body t))) (record_body t ++ post))))

    past : length pre + 4 + length (record_body t) ≡ length (pre ++ tag_record t)
    past = omega (arith, length-append pre (tag_record t))

-- The loop returns the tags that stand from its offset on, if the fuel is more by two than they
-- are.
loop_records :
    (ts : List AttrVal) (h : Handle) (pre : Bytes) (f : ℕ) (acc : List AttrVal)
    → IsOpen h
    → IsWhole h
    → All IsTag ts
    → h.filedata ≡ pre ++ tag_records ts
    → length ts + 2 ≤ f
    → tags_loop f h (length pre) acc ≡ some (ok (0, acc ++ map reread_tag ts))
loop_records ts h pre zero acc o w v e le = absurd (omega arith)
loop_records [] h pre (suc f) acc o w v e le =
    unfold tags_loop in
    rw (pread_end h pre [] 4 o w e (omega arith))
      (ap (λ (l : List AttrVal). some (ok (0, l))) (sym (append-nil acc)))
loop_records (t ∷ ts) h pre (suc zero) acc o w v e le = absurd (omega arith)
loop_records (t ∷ ts) h pre (suc (suc zero)) acc o w v e le = absurd (omega arith)
loop_records (t ∷ ts) h pre (suc (suc (suc f))) acc o w (vt, vs) e le =
    loop_round h pre (tag_records ts) t f acc o w vt e
    ∙ loop_records ts h (pre ++ tag_record t) (suc (suc f)) (acc ++ reread_tag t ∷ []) o w vs
        (e ∙ sym (append_assoc pre (tag_record t) (tag_records ts))) (omega arith)
    ∙ ap (λ (l : List AttrVal). some (ok (0, l)))
        (append_assoc acc (reread_tag t ∷ []) (map reread_tag ts))

magic_accepted : (go : ReadResult) → with_magic (ok (be32 tags_magic)) go ≡ go
unfolding same
magic_accepted go = refl

-- From an open file that holds tags that `IsTag` admits, `tagsread` returns them all, in the order in which they were
-- written, each as `reread_tag` says; two rounds more than there are tags are fuel enough.
pub tagsread-IsTagFile :
    (h : Handle) (ts : List AttrVal) (fuel : ℕ)
    → IsTagFile h ts
    → All IsTag ts
    → length ts + 2 ≤ fuel
    → tagsread fuel h ≡ some (ok (0, map reread_tag ts))
unfolding tagsread
tagsread-IsTagFile h ts fuel d v le =
    ap (λ (m : Outcome Bytes). with_magic m (tags_loop fuel h 4 []))
      (word_at h [] (tag_records ts) tags_magic d.opened d.whole d.held)
    ∙ magic_accepted (tags_loop fuel h 4 [])
    ∙ loop_records ts h (be32 tags_magic) fuel [] d.opened d.whole v d.held le
