-- ===== src/Feed/Columns/Lines.antt =====
-- Lines that are joined by line ends are the tokens of the text.
use glite_jp.Base.{[], ◌∷◌, ◌++◌, Bytes, List, All, append-nil, ◌≡◌, ◌≢◌, refl, ap, ◌∙◌, arith}
use glite_jp.Feed.Columns.{lines_of, not_blank, tokens}

-- a line that strtok returns as it is
abbrev pub IsLine : Bytes → Type 0
IsLine l = (l ≢ []) × All (λ c. c ≢ 10) l

-- each line behind a line end
abbrev pub lines_behind : List Bytes → Bytes
lines_behind [] = []
lines_behind (l ∷ ls) = 10 ∷ (l ++ lines_behind ls)

last_line : (l : Bytes) → All (λ c. c ≢ 10) l → lines_of l ≡ (l, [])
unfolding lines_of
last_line [] h = refl
last_line (c ∷ l) (hc, h) = ground (arith, last_line l h)

first_line :
    (l s : Bytes)
    → All (λ c. c ≢ 10) l
    → lines_of (l ++ 10 ∷ s) ≡ (l, (lines_of s).0 ∷ (lines_of s).1)
unfolding lines_of
first_line [] s h = refl
first_line (c ∷ l) s (hc, h) = ground (arith, first_line l s h)

not_blank_line : (l : Bytes) (ls : List Bytes) → l ≢ [] → not_blank (l ∷ ls) ≡ l ∷ not_blank ls
not_blank_line [] ls h = absurd (h refl)
not_blank_line (c ∷ l) ls h = refl

pub tokens-lines_behind :
    (l : Bytes) (ls : List Bytes)
    → IsLine l
    → All IsLine ls
    → tokens (l ++ lines_behind ls) ≡ l ∷ ls
unfolding tokens
tokens-lines_behind l [] (n, h) v =
    ap tokens (append-nil l)
    ∙ ap (λ (r : Bytes × List Bytes). not_blank (r.0 ∷ r.1)) (last_line l h)
    ∙ not_blank_line l [] n
tokens-lines_behind l (m ∷ ls) (n, h) (v, vs) =
    ap (λ (r : Bytes × List Bytes). not_blank (r.0 ∷ r.1)) (first_line l (m ++ lines_behind ls) h)
    ∙ not_blank_line l _ n
    ∙ ap (λ (r : List Bytes). l ∷ r) (tokens-lines_behind m ls v vs)
