-- ===== src/Index/Search/Text.antt =====
-- The text of the query, and where it goes wrong.
use glite_jp.Base.{
  ℕ, zero, suc, [], ◌∷◌, ◌++◌, Bytes, codes, Bool, true, false, Option, some, none, if◌then◌else◌,
  Outcome, ok, fault, ◌>>=◌, List, map, All, append_assoc, append-nil, ◌≡◌, refl, sym, ap, ◌∙◌,
}
use glite_jp.Attr.Codec.{Base64}
use glite_jp.Attr.Plugins.{TypePlugin}
use glite_jp.Index.Search.Request.{IndexCond, jobid_attr, same_case}
use glite_jp.Index.Search.{
  Trio, attr2id, get_sql_or, add_attr_table, and_if, join_text, with_or, blank_before,
  add_condition, name_of, where_loop, table_list, select_text, jobs_query,
}

-- A condition with its attribute and the text of its records.
pub record Resolved : Type 0 where
  pub cond : IndexCond
  pub name : Bytes
  pub inner : Bytes

module _ (b : Base64) (ps : List TypePlugin) (t : Trio) (hash : Bytes → Bytes) where
  -- The records of the condition have this text, and its attribute is not the identifier of the job.
  pub record IsResolved (r : Resolved) : Type 0 where
    pub named : r.cond.attr ≡ some r.name
    pub elsewhere : same_case r.name jobid_attr ≡ false
    pub read : get_sql_or b ps t hash r.name r.cond ≡ ok (some r.inner)

  abbrev pub inner_text : Bytes → Bytes
  inner_text [] = []
  inner_text (c ∷ s) = codes " AND (" ++ ((c ∷ s) ++ codes ")")

  -- the join with the table, and the condition on its values in brackets
  abbrev pub clause : Resolved → Bytes
  clause r = join_text b ps t hash (attr2id b ps t hash r.name) r.cond.origin ++ inner_text r.inner

  abbrev pub rest_text : List Resolved → Bytes
  rest_text [] = []
  rest_text (r ∷ rs) = codes " AND " ++ (clause r ++ rest_text rs)

  abbrev pub joined : List Resolved → Bytes
  joined [] = []
  joined (r ∷ rs) = codes " " ++ (clause r ++ rest_text rs)

  -- the tables, each once, in the order of their first use
  abbrev pub tables_from : List Bytes → List Resolved → List Bytes
  tables_from l [] = l
  tables_from l (r ∷ rs) = tables_from (add_attr_table (attr2id b ps t hash r.name) l) rs

  with_or_lem :
      (i : ℕ) (id : Bytes) (o : Option ℕ) (inner : Bytes)
      → blank_before b ps t hash
          (with_or b ps t hash (and_if b ps t hash i ++ join_text b ps t hash id o) inner)
        ≡ codes " " ++ (and_if b ps t hash i ++ (join_text b ps t hash id o ++ inner_text inner))
  with_or_lem zero id none [] =
      sym (ap (λ (s : Bytes). codes " " ++ s) (append-nil (join_text b ps t hash id none)))
  with_or_lem zero id none (c ∷ s) = refl
  with_or_lem zero id (some o) [] =
      sym (ap (λ (s : Bytes). codes " " ++ s) (append-nil (join_text b ps t hash id (some o))))
  with_or_lem zero id (some o) (c ∷ s) = refl
  with_or_lem (suc i) id none [] =
      sym (ap (λ (s : Bytes). codes " AND " ++ s) (append-nil (join_text b ps t hash id none)))
  with_or_lem (suc i) id none (c ∷ s) = refl
  with_or_lem (suc i) id (some o) [] =
      sym (ap (λ (s : Bytes). codes " AND " ++ s) (append-nil (join_text b ps t hash id (some o))))
  with_or_lem (suc i) id (some o) (c ∷ s) = refl

  -- what one condition adds
  condition_lem :
      (i : ℕ) (w : Bytes) (l : List Bytes) (r : Resolved)
      → IsResolved r
      → (name_of b ps t hash r.cond.attr >>= λ name. add_condition b ps t hash i name r.cond (w, l))
        ≡ ok (
          w ++ (codes " " ++ (and_if b ps t hash i ++ clause r)),
          add_attr_table (attr2id b ps t hash r.name) l,
        )
  condition_lem i w l r h =
      let id : Bytes = attr2id b ps t hash r.name in
      let qa : Bytes = and_if b ps t hash i ++ join_text b ps t hash id r.cond.origin in
      ap
        (λ (o : Option Bytes).
          name_of b ps t hash o >>= λ name. add_condition b ps t hash i name r.cond (w, l))
        h.named
      ∙ ap
          (λ (e : Bool). get_sql_or b ps t hash r.name r.cond >>= λ o. elim o [
            | none ↦ fault
            | some qor ↦ ok (
              w ++ blank_before b ps t hash (with_or b ps t hash (if e then [] else qa) qor),
              if e then l else add_attr_table id l,
            )
          ])
          h.elsewhere
      ∙ ap
          (λ (m : Outcome (Option Bytes)). m >>= λ o. elim o [
            | none ↦ fault
            | some qor ↦
                ok (w ++ blank_before b ps t hash (with_or b ps t hash qa qor), add_attr_table id l)
          ])
          h.read
      ∙ ap (λ (s : Bytes). ok (w ++ s, add_attr_table id l))
          (with_or_lem i id r.cond.origin r.inner)

  where_rest :
      (i : ℕ) (w : Bytes) (l : List Bytes) (rs : List Resolved)
      → All IsResolved rs
      → where_loop b ps t hash (suc i) (map (λ (r : Resolved). r.cond) rs) (w, l)
        ≡ ok (w ++ rest_text rs, tables_from l rs)
  unfolding where_loop
  where_rest i w l [] h = ap (λ (s : Bytes). ok (s, l)) (sym (append-nil w))
  where_rest i w l (r ∷ rs) (hr, hs) =
      ap
        (λ (m : Outcome (Bytes × List Bytes)).
          m >>= λ v. where_loop b ps t hash (suc (suc i)) (map (λ (r : Resolved). r.cond) rs) v)
        (condition_lem (suc i) w l r hr)
      ∙ where_rest (suc i) _ _ rs hs
      ∙ ap (λ (s : Bytes). ok (s, tables_from (add_attr_table (attr2id b ps t hash r.name) l) rs))
          (append_assoc w (codes " AND " ++ clause r) (rest_text rs))

  -- For one or more conditions that are not on the identifier of the job, and whose records have a
  -- text, the query of get_jobids selects from the tables of their attributes, each named once, with
  -- the conditions joined by AND, each with the alternatives of its values in brackets.
  pub jobs_query-joined :
      (no_auth : Bool) (peer : Bytes) (r : Resolved) (rs : List Resolved)
      → All IsResolved (r ∷ rs)
      → jobs_query b ps t hash no_auth peer (map (λ (x : Resolved). x.cond) (r ∷ rs))
        ≡ ok (
            select_text b ps t hash no_auth peer
              (table_list b ps t hash (tables_from [] (r ∷ rs)))
              (joined (r ∷ rs)))
  unfolding jobs_query where_loop
  jobs_query-joined no_auth peer r rs (hr, hs) =
      ap
        (λ (m : Outcome (Bytes × List Bytes)).
          m >>= λ w. ok (select_text b ps t hash no_auth peer (table_list b ps t hash w.1) w.0))
        (ap
            (λ (m : Outcome (Bytes × List Bytes)).
              m >>= λ v. where_loop b ps t hash 1 (map (λ (x : Resolved). x.cond) rs) v)
            (condition_lem 0 [] [] r hr)
          ∙ where_rest 0 (codes " " ++ clause r) (add_attr_table (attr2id b ps t hash r.name) []) rs
              hs)

  -- A condition on the identifier of the job behind another one is not joined to it: where its
  -- records have a text, that stands in brackets behind the other condition with no AND between.
  pub jobid_behind :
      (no_auth : Bool) (peer : Bytes) (r : Resolved) (c : IndexCond) (name : Bytes) (x : ℕ)
      (inner : Bytes)
      → IsResolved r
      → c.attr ≡ some name
      → same_case name jobid_attr ≡ true
      → get_sql_or b ps t hash name c ≡ ok (some (x ∷ inner))
      → jobs_query b ps t hash no_auth peer (r.cond ∷ c ∷ [])
        ≡ ok (
            select_text b ps t hash no_auth peer
              (table_list b ps t hash (attr2id b ps t hash r.name ∷ []))
              ((codes " " ++ clause r) ++ (codes " (" ++ ((x ∷ inner) ++ codes ")"))))
  unfolding jobs_query where_loop add_attr_table
  jobid_behind no_auth peer r c name x inner hr named is_jobid read =
      ap
        (λ (m : Outcome (Bytes × List Bytes)).
          m >>= λ w. ok (select_text b ps t hash no_auth peer (table_list b ps t hash w.1) w.0))
        (ap (λ (m : Outcome (Bytes × List Bytes)). m >>= λ v. where_loop b ps t hash 1 (c ∷ []) v)
            (condition_lem 0 [] [] r hr)
          ∙ ap (λ (m : Outcome (Bytes × List Bytes)). m >>= λ v. ok v)
              (ap
                  (λ (o : Option Bytes). name_of b ps t hash o >>= λ n.
                    add_condition b ps t hash 1 n c
                      (codes " " ++ clause r, attr2id b ps t hash r.name ∷ []))
                  named
                ∙ ap
                    (λ (e : Bool). get_sql_or b ps t hash name c >>= λ o. elim o [
                      | none ↦ fault
                      | some qor ↦ ok (
                        (codes " " ++ clause r)
                            ++ blank_before b ps t hash (
                                with_or b ps t hash
                                  (if e
                                    then []
                                    else and_if b ps t hash 1
                                      ++ join_text b ps t hash (attr2id b ps t hash name) c.origin)
                                  qor),
                        if e
                            then attr2id b ps t hash r.name ∷ []
                            else add_attr_table (attr2id b ps t hash name)
                                (attr2id b ps t hash r.name ∷ []),
                      )
                    ])
                    is_jobid
                ∙ ap
                    (λ (m : Outcome (Option Bytes)). m >>= λ o. elim o [
                      | none ↦ fault
                      | some qor ↦ ok (
                        (codes " " ++ clause r)
                            ++ blank_before b ps t hash (with_or b ps t hash [] qor),
                        attr2id b ps t hash r.name ∷ [],
                      )
                    ])
                    read))
