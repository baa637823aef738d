-- ===== src/Index/Search/Checks.antt =====
-- Which queries are let through.
use glite_jp.Base.{
  [], ◌∷◌, Bytes, true, false, Option, some, none, List, map, All, ◌≡◌, ◌↔◌, ◌⊎◌, inl, inr, refl,
  arith, same, same_iff, Bool-cases,
}
use glite_jp.Index.Search.Request.{
  tolower, same_case, find_attr, IndexCond, known, all_known, check_conditions,
}

-- A name of the list, but for the case of its letters.
abbrev pub Listed : List Bytes → Bytes → Type 0
Listed [] a = ⊥
Listed (x ∷ xs) a = (map tolower a ≡ map tolower x) ⊎ Listed xs a

abbrev pub Known : List Bytes → Option Bytes → Type 0
Known attrs none = ⊥
Known attrs (some a) = Listed attrs a

find_attr_iff : (attrs : List Bytes) (a : Bytes) → (find_attr attrs a ≡ true) ↔ Listed attrs a
unfolding find_attr same_case
find_attr_iff [] a = (λ h. cc, λ h. absurd h)
find_attr_iff (x ∷ xs) a = elim (Bool-cases (same (map tolower a) (map tolower x))) [
  | inl e ↦ (λ h. inl ((same_iff _ _).0 e), λ h. ground arith)
  | inr e ↦ (
    λ h. inr ((find_attr_iff xs a).0 (ground arith)),
    λ h. elim h [
      | inl p ↦
          (let q : same (map tolower a) (map tolower x) ≡ true = (same_iff _ _).1 p in ground arith)
      | inr p ↦ (let q : find_attr xs a ≡ true = (find_attr_iff xs a).1 p in ground arith)
    ],
  )
]

known_iff : (attrs : List Bytes) (a : Option Bytes) → (known attrs a ≡ true) ↔ Known attrs a
known_iff attrs none = (λ h. cc, λ h. absurd h)
known_iff attrs (some a) = find_attr_iff attrs a

all_known_iff :
    (attrs : List Bytes) (l : List (Option Bytes))
    → (all_known attrs l ≡ true) ↔ All (Known attrs) l
unfolding all_known
all_known_iff attrs [] = (λ h. tt, λ h. refl)
all_known_iff attrs (a ∷ l) = (
  λ h. elim (Bool-cases (known attrs a)) [
    | inl e ↦ ((known_iff attrs a).0 e, (all_known_iff attrs l).0 (ground arith))
    | inr e ↦ absurd (ground arith)
  ],
  λ h. rw ((known_iff attrs a).1 h.0) ((all_known_iff attrs l).1 h.1),
)

-- checkConditions lets a query through exactly where each attribute of its conditions, and each that
-- is asked for, is given and is one of the configured ones, but for the case of its letters.
pub check_conditions-Known :
    (attrs : List Bytes) (cs : List IndexCond) (asked : List (Option Bytes))
    → (check_conditions attrs cs asked ≡ false)
      ↔ (All (Known attrs) (map (λ (c : IndexCond). c.attr) cs) × All (Known attrs) asked)
unfolding check_conditions
check_conditions-Known attrs cs asked = (
  λ h. elim (Bool-cases (all_known attrs (map (λ (c : IndexCond). c.attr) cs))) [
    | inl e ↦ ((all_known_iff attrs _).0 e, (all_known_iff attrs asked).0 (ground arith))
    | inr e ↦ absurd (ground arith)
  ],
  λ h.
      rw
        (
          (all_known_iff attrs (map (λ (c : IndexCond). c.attr) cs)).1 h.0,
          (all_known_iff attrs asked).1 h.1,
        )
        refl,
)
