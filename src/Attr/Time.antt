-- ===== src/Attr/Time.antt =====
-- `glite_jp_attr2time` and `glite_jp_time2attr` of attr.c.
use glite_jp.Base.{
  [], Bytes, ℤ, Outcome, ok, fault, if◌then◌else◌, Fits, ◌≡◌, refl, subst, append-nil,
}
use glite_jp.Base.Decimal.{print_int, strtol, skip_space, has_number}
use glite_jp.Base.Decimal.Laws.{strtol-print_int, number-print_int}

-- `sscanf(a, "%ld", &t)`: without a number, the variable that is returned was never set
unfoldable pub attr2time : Bytes → Outcome ℤ
attr2time a = if has_number (skip_space a) then ok (strtol a).number else fault

unfoldable pub time2attr : ℤ → Bytes
time2attr t = print_int t

-- A time of 64 bits that is written as an attribute is read back.
pub attr2time-time2attr : (t : ℤ) → Fits 63 t → attr2time (time2attr t) ≡ ok t
unfolding attr2time time2attr
attr2time-time2attr t h =
    subst
      (λ (s : Bytes). (if has_number (skip_space s) then ok (strtol s).number else fault) ≡ ok t)
      (append-nil (print_int t))
      (let n = number-print_int t [] in rw (n.0, n.1, strtol-print_int t [] h tt) refl)
