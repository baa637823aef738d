-- ===== src/Feed/Columns/RoundTrip.antt =====
-- A feed that is stored is read back.
use glite_jp.Base.{
  [], ◌∷◌, ◌++◌, Bytes, false, Option, some, none, Outcome, ok, List, All, map, append_assoc,
  append-nil, ◌≡◌, ◌≢◌, refl, sym, ap, ◌∙◌, ◌>>=◌,
}
use glite_jp.Types.{QueryRec, orig_any}
use glite_jp.Feed.Columns.{
  Ulm, JpFeed, line_behind, letter_op, tokens, attr_lines, value_line, query_lines, saved,
  record_of, parse_query, before_rest, jpfeed_of,
}
use glite_jp.Feed.Columns.Letters.{
  IsStorable, letter, twice, letter_lem, letter_back, letter-IsLine, value_back, escaped-IsLine,
  value-IsLine,
}
use glite_jp.Feed.Columns.Lines.{IsLine, lines_behind, tokens-lines_behind}

module _ (u : Ulm) where
  -- the condition as it is read back
  abbrev pub reread : QueryRec → QueryRec
  reread q = record {
    attr = u.escape (u.escape q.attr);
    op = q.op;
    value = twice u q.op q.value;
    value2 = none;
    binary = false;
    size = 0;
    size2 = 0;
    origin = orig_any;
  }

  -- the lines of a query
  abbrev stored_lines : List QueryRec → List Bytes
  stored_lines [] = []
  stored_lines (q ∷ qs) =
      u.escape q.attr ∷ (letter q.op ∷ []) ∷ value_line u q.op q.value ∷ stored_lines qs

  stored-IsLine : (qs : List QueryRec) → All IsStorable qs → All IsLine (stored_lines qs)
  stored-IsLine [] h = tt
  stored-IsLine (q ∷ qs) (h, hs) = (
    escaped-IsLine u q.attr h.named,
    (letter-IsLine q.op, (value-IsLine u q.op q.value h.valued, stored-IsLine qs hs)),
  )

  attr_lines_lem :
      (acc : Bytes) (l : List Bytes)
      → attr_lines u (some acc) l ≡ some (acc ++ lines_behind (map u.escape l))
  attr_lines_lem acc [] = ap some (sym (append-nil acc))
  attr_lines_lem acc (a ∷ l) =
      attr_lines_lem (acc ++ 10 ∷ u.escape a) l
      ∙ ap some (append_assoc acc (10 ∷ u.escape a) (lines_behind (map u.escape l)))

  query_step :
      (acc : Option Bytes) (q : QueryRec) (qs : List QueryRec)
      → IsStorable q
      → query_lines u acc (q ∷ qs)
        ≡ query_lines u
            (some (
              line_behind acc
                (u.escape q.attr ++ 10 ∷ letter q.op ∷ 10 ∷ value_line u q.op q.value)))
            qs
  query_step acc q qs h = rw (h.text, letter_lem q.op q.value h.valued) refl

  query_lines_lem :
      (acc : Bytes) (qs : List QueryRec)
      → All IsStorable qs
      → query_lines u (some acc) qs ≡ ok (some (acc ++ lines_behind (stored_lines qs)))
  query_lines_lem acc [] h = ap (λ (s : Bytes). ok (some s)) (sym (append-nil acc))
  query_lines_lem acc (q ∷ qs) (h, hs) =
      query_step (some acc) q qs h
      ∙ query_lines_lem
          (acc ++ 10 ∷ (u.escape q.attr ++ 10 ∷ letter q.op ∷ 10 ∷ value_line u q.op q.value)) qs hs
      ∙ ap (λ (s : Bytes). ok (some s))
          (append_assoc acc
              (10 ∷ (u.escape q.attr ++ 10 ∷ letter q.op ∷ 10 ∷ value_line u q.op q.value))
              (lines_behind (stored_lines qs))
            ∙ ap (λ (s : Bytes). acc ++ 10 ∷ s)
                (append_assoc (u.escape q.attr) (10 ∷ letter q.op ∷ 10 ∷ value_line u q.op q.value)
                  (lines_behind (stored_lines qs))))

  -- the text of a query
  abbrev pub query_text : QueryRec → List QueryRec → Bytes
  query_text q qs =
      u.escape q.attr
      ++ lines_behind ((letter q.op ∷ []) ∷ value_line u q.op q.value ∷ stored_lines qs)

  pub query_lines_whole :
      (q : QueryRec) (qs : List QueryRec)
      → All IsStorable (q ∷ qs)
      → query_lines u none (q ∷ qs) ≡ ok (some (query_text q qs))
  query_lines_whole q qs (h, hs) =
      query_step none q qs h
      ∙ query_lines_lem (u.escape q.attr ++ 10 ∷ letter q.op ∷ 10 ∷ value_line u q.op q.value) qs hs
      ∙ ap (λ (s : Bytes). ok (some s))
          (append_assoc (u.escape q.attr) (10 ∷ letter q.op ∷ 10 ∷ value_line u q.op q.value)
            (lines_behind (stored_lines qs)))

  parsed_step :
      (q : QueryRec) (m : Outcome (List QueryRec))
      → IsStorable q
      → (letter_op (letter q.op ∷ []) >>= λ op.
          before_rest u (record_of u (u.escape q.attr) op (some (value_line u q.op q.value))) m)
        ≡ before_rest u (reread q) m
  parsed_step q m h =
      rw (letter_back q.op q.value h.valued, value_back u q.op q.value h.valued) refl

  parsed_lem :
      (qs : List QueryRec)
      → All IsStorable qs
      → parse_query u (stored_lines qs) ≡ ok (map reread qs)
  unfolding parse_query
  parsed_lem [] h = refl
  parsed_lem (q ∷ qs) (h, hs) =
      parsed_step q (parse_query u (stored_lines qs)) h
      ∙ ap (before_rest u (reread q)) (parsed_lem qs hs)

  unescaped : (l : List Bytes) → map u.unescape (map u.escape l) ≡ l
  unescaped [] = refl
  unescaped (a ∷ l) = rw (u.unescape_escape a, unescaped l) refl

  each_escaped : (l : List Bytes) → All (λ a. a ≢ []) l → All IsLine (map u.escape l)
  each_escaped [] h = tt
  each_escaped (a ∷ l) (h, hs) = (escaped-IsLine u a h, each_escaped l hs)

  -- the feed as it is read back
  abbrev pub reread_feed : JpFeed → JpFeed
  reread_feed f = record f { qry = map reread f.qry }

  pub jpfeed_of-saved :
      (f : JpFeed) (a : Bytes) (l : List Bytes) (q : QueryRec) (qs : List QueryRec)
      → f.attrs ≡ a ∷ l
      → f.qry ≡ q ∷ qs
      → All (λ n. n ≢ []) (a ∷ l)
      → All IsStorable (q ∷ qs)
      → jpfeed_of u (saved u f (some (query_text q qs))) ≡ ok (reread_feed f)
  jpfeed_of-saved f a l q qs ea eq (ha, hl) (h, hs) =
      rw (ea, eq, attr_lines_lem (u.escape a) l, cols, query) refl
    where
      cols : map u.unescape (tokens (u.escape a ++ lines_behind (map u.escape l))) ≡ a ∷ l
      cols =
          rw
            (tokens-lines_behind (u.escape a) (map u.escape l) (escaped-IsLine u a ha)
              (each_escaped l hl))
            (unescaped (a ∷ l))

      query : parse_query u (tokens (query_text q qs)) ≡ ok (map reread (q ∷ qs))
      query =
          ap (parse_query u) (
            tokens-lines_behind (u.escape q.attr)
              ((letter q.op ∷ []) ∷ value_line u q.op q.value ∷ stored_lines qs)
              (escaped-IsLine u q.attr h.named)
              (letter-IsLine q.op, (value-IsLine u q.op q.value h.valued, stored-IsLine qs hs)))
          ∙ parsed_lem (q ∷ qs) (h, hs)
