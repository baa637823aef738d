-- ===== src/Feed/Columns/Letters.antt =====
-- The letters and the values of the conditions of a feed, as they are stored.
use glite_jp.Base.{ℕ, [], ◌∷◌, Bytes, false, Option, some, none, ok, ◌≡◌, ◌≢◌, refl, arith}
use glite_jp.Types.{QueryRec, QueryOp, undef, equal, unequal, less, greater, within, exists}
use glite_jp.Feed.Columns.{Ulm, op_letter, letter_op, value_line, reread_value}
use glite_jp.Feed.Columns.Lines.{IsLine}

-- A value that is stored: not empty, where the operation has one.
abbrev pub Valued : QueryOp → Option Bytes → Type 0
Valued exists v = Unit
Valued equal (some v) = v ≢ []
Valued unequal (some v) = v ≢ []
Valued less (some v) = v ≢ []
Valued greater (some v) = v ≢ []
Valued op v = ⊥

-- A condition that is text, is no range, and has a name and, where the operation has one, a value.
pub record IsStorable (q : QueryRec) : Type 0 where
  pub text : q.binary ≡ false
  pub named : q.attr ≢ []
  pub valued : Valued q.op q.value

abbrev pub letter : QueryOp → ℕ
letter equal = b'='
letter unequal = b'!'
letter less = b'<'
letter greater = b'>'
letter op = b'E'

pub letter_lem : (op : QueryOp) (v : Option Bytes) → Valued op v → op_letter op ≡ ok (letter op)
letter_lem exists v h = refl
letter_lem equal (some v) h = refl
letter_lem unequal (some v) h = refl
letter_lem less (some v) h = refl
letter_lem greater (some v) h = refl
letter_lem equal none h = absurd h
letter_lem unequal none h = absurd h
letter_lem less none h = absurd h
letter_lem greater none h = absurd h
letter_lem within v h = absurd h
letter_lem undef v h = absurd h

pub letter_back :
    (op : QueryOp) (v : Option Bytes) → Valued op v → letter_op (letter op ∷ []) ≡ ok op
letter_back exists v h = refl
letter_back equal (some v) h = refl
letter_back unequal (some v) h = refl
letter_back less (some v) h = refl
letter_back greater (some v) h = refl
letter_back equal none h = absurd h
letter_back unequal none h = absurd h
letter_back less none h = absurd h
letter_back greater none h = absurd h
letter_back within v h = absurd h
letter_back undef v h = absurd h

pub letter-IsLine : (op : QueryOp) → IsLine (letter op ∷ [])
letter-IsLine op = (λ e. cc, (not_end op, tt))
  where
    not_end : (o : QueryOp) → letter o ≢ 10
    not_end exists e = absurd (ground arith)
    not_end equal e = absurd (ground arith)
    not_end unequal e = absurd (ground arith)
    not_end less e = absurd (ground arith)
    not_end greater e = absurd (ground arith)
    not_end within e = absurd (ground arith)
    not_end undef e = absurd (ground arith)

module _ (u : Ulm) where
  -- Attributes of the query come back escaped, and the values twice.
  abbrev pub twice : QueryOp → Option Bytes → Option Bytes
  twice exists v = none
  twice op none = none
  twice op (some v) = some (u.escape (u.escape v))

  pub value_back :
      (op : QueryOp) (v : Option Bytes)
      → Valued op v
      → reread_value u op (some (value_line u op v)) ≡ twice op v
  value_back exists v h = refl
  value_back equal (some v) h = refl
  value_back unequal (some v) h = refl
  value_back less (some v) h = refl
  value_back greater (some v) h = refl
  value_back equal none h = absurd h
  value_back unequal none h = absurd h
  value_back less none h = absurd h
  value_back greater none h = absurd h
  value_back within v h = absurd h
  value_back undef v h = absurd h

  pub escaped-IsLine : (s : Bytes) → s ≢ [] → IsLine (u.escape s)
  escaped-IsLine s h = (u.not_empty s h, u.one_line s)

  pub value-IsLine : (op : QueryOp) (v : Option Bytes) → Valued op v → IsLine (value_line u op v)
  value-IsLine exists v h = letter-IsLine exists
  value-IsLine equal (some v) h = escaped-IsLine v h
  value-IsLine unequal (some v) h = escaped-IsLine v h
  value-IsLine less (some v) h = escaped-IsLine v h
  value-IsLine greater (some v) h = escaped-IsLine v h
  value-IsLine equal none h = absurd h
  value-IsLine unequal none h = absurd h
  value-IsLine less none h = absurd h
  value-IsLine greater none h = absurd h
  value-IsLine within v h = absurd h
  value-IsLine undef v h = absurd h
