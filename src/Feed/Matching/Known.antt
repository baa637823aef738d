-- ===== src/Feed/Matching/Known.antt =====
-- Feeds whose query asks for attributes that are new, and for others.
use glite_jp.Base.{
  ℕ, suc, Bool, zero, ◌+◌, ◌≤◌, [], ◌∷◌, ◌++◌, Bytes, true, false, Option, some, none, Outcome, ok,
  err, fault, ◌>>=◌, List, All, length, ◌≡◌, ◌↔◌, refl, sym, ap, ◌∙◌, arith,
}
use glite_jp.Types.{AttrVal, QueryRec}
use glite_jp.Attr.Codec.{Base64}
use glite_jp.Attr.Plugins.{TypePlugin}
use glite_jp.Feed.{check_qry_item}
use glite_jp.Feed.Matching.{
  Told, met, unknown, told, first_named, asked_names, query_max, tell, tell_all, next_told,
  with_item, completed, is_feed_matching,
}

module _ (b : Base64) (ps : List TypePlugin)
    (get_attrs : Bytes → List Bytes → Outcome (List AttrVal)) where
  -- The first attribute with the name of the item is there and meets it.
  abbrev pub IsMet : List AttrVal → QueryRec → Type 0
  IsMet attrs q =
      (a : AttrVal) × (first_named q.attr attrs ≡ some a) × (check_qry_item b ps q a ≡ ok true)

  abbrev pub IsNamed : List AttrVal → QueryRec → Type 0
  IsNamed attrs q = (a : AttrVal) × (first_named q.attr attrs ≡ some a)

  abbrev all_met : List QueryRec → List (Told × QueryRec)
  all_met [] = []
  all_met (q ∷ qs) = (met, q) ∷ all_met qs

  met_first :
      (room : ℕ) (q : QueryRec) (qs : List QueryRec) (attrs : List AttrVal)
      → IsMet attrs q
      → tell_all b ps get_attrs (suc room) (q ∷ qs) attrs
        ≡ with_item b ps get_attrs (met, q) (tell_all b ps get_attrs room qs attrs)
  unfolding tell_all
  met_first room q qs attrs (a, e, k) = rw (e, k) refl

  met_lem :
      (room : ℕ) (qs : List QueryRec) (attrs : List AttrVal)
      → All (IsMet attrs) qs
      → length qs ≤ room
      → tell_all b ps get_attrs room qs attrs ≡ ok (some (all_met qs))
  unfolding tell_all
  met_lem room [] attrs h le = refl
  met_lem zero (q ∷ qs) attrs h le = absurd (omega arith)
  met_lem (suc room) (q ∷ qs) attrs (h, hs) le =
      met_first room q qs attrs h
      ∙ ap (with_item b ps get_attrs (met, q)) (met_lem room qs attrs hs (omega arith))

  none_asked : (qs : List QueryRec) → asked_names (all_met qs) ≡ ok []
  none_asked [] = refl
  none_asked (q ∷ qs) = rw (none_asked qs) refl

  next_told_inv :
      (q : QueryRec) (r : Outcome (Option (List (Told × QueryRec)))) (l : List (Told × QueryRec))
      (m : Outcome Bool)
      → ((m >>= λ x. ok (told x)) >>= next_told b ps get_attrs q r) ≡ ok (some l)
      → (m ≡ ok true) × ((k : List (Told × QueryRec)) × (r ≡ ok (some k)))
  next_told_inv q (ok (some k)) l (ok true) h = (refl, (k, refl))
  next_told_inv q (ok none) l (ok true) h = cc
  next_told_inv q (err e) l (ok true) h = cc
  next_told_inv q fault l (ok true) h = cc
  next_told_inv q r l (ok false) h = cc
  next_told_inv q r l (err e) h = cc
  next_told_inv q r l fault h = cc

  tell_all_inv :
      (room : ℕ) (qs : List QueryRec) (attrs : List AttrVal) (l : List (Told × QueryRec))
      → All (IsNamed attrs) qs
      → tell_all b ps get_attrs room qs attrs ≡ ok (some l)
      → All (IsMet attrs) qs
  unfolding tell_all
  tell_all_inv room [] attrs l n h = tt
  tell_all_inv zero (q ∷ qs) attrs l n h = cc
  tell_all_inv (suc room) (q ∷ qs) attrs l ((a, e), n) h =
      let (k, (m, w)) =
        next_told_inv q (tell_all b ps get_attrs room qs attrs) l (check_qry_item b ps q a) (
          sym (
            ap
              (λ (o : Option AttrVal).
                tell b ps get_attrs q o
                >>= next_told b ps get_attrs q (tell_all b ps get_attrs room qs attrs))
              e)
          ∙ h) in
      ((a, e, k), tell_all_inv room qs attrs m n w)

  finished :
      (job : Bytes) (o : Outcome (Option (List (Told × QueryRec))))
      → (o >>= completed b ps get_attrs job) ≡ ok true
      → (l : List (Told × QueryRec)) × (o ≡ ok (some l))
  finished job (ok (some l)) h = (l, refl)
  finished job (ok none) h = cc
  finished job (err e) h = cc
  finished job fault h = cc

  -- If each item of a query of 100 items at most has its attribute among the new ones, then the feed
  -- matches exactly where for each item the first attribute with its name meets it.
  pub is_feed_matching-IsMet :
      (qs : List QueryRec) (job : Bytes) (attrs : List AttrVal)
      → All (IsNamed attrs) qs
      → length qs ≤ 100
      → (is_feed_matching b ps get_attrs (some qs) job attrs ≡ ok true) ↔ All (IsMet attrs) qs
  unfolding is_feed_matching
  is_feed_matching-IsMet qs job attrs n le = (
    λ h.
        let (l, e) = finished job (tell_all b ps get_attrs query_max qs attrs) h in
        tell_all_inv query_max qs attrs l n e,
    λ h. rw (met_lem query_max qs attrs h le, none_asked qs) refl,
  )

  told_behind :
      (room : ℕ) (qs : List QueryRec) (r : QueryRec) (attrs : List AttrVal)
      → All (IsMet attrs) qs
      → first_named r.attr attrs ≡ none
      → length qs + 1 ≤ room
      → tell_all b ps get_attrs room (qs ++ r ∷ []) attrs
        ≡ ok (some (all_met qs ++ (unknown, r) ∷ []))
  unfolding tell_all
  told_behind zero qs r attrs h e le = absurd (omega arith)
  told_behind (suc room) [] r attrs h e le = rw e (ends room)
    where
      ends :
          (k : ℕ)
          → with_item b ps get_attrs (unknown, r) (tell_all b ps get_attrs k [] attrs)
            ≡ ok (some ((unknown, r) ∷ []))
      ends zero = refl
      ends (suc k) = refl
  told_behind (suc room) (q ∷ qs) r attrs (h, hs) e le =
      met_first room q (qs ++ r ∷ []) attrs h
      ∙ ap (with_item b ps get_attrs (met, q)) (told_behind room qs r attrs hs e (omega arith))

  overrun :
      (q : QueryRec) (qs : List QueryRec) (r : QueryRec)
      → asked_names ((met, q) ∷ (all_met qs ++ (unknown, r) ∷ [])) ≡ fault
  overrun q [] r = refl
  overrun q (p ∷ qs) r = rw (overrun p qs r) refl

  -- If the new attributes meet the first items of a query, one or more, and the last item asks for
  -- an attribute that is not among them, 100 items at most, then memory is overrun, whatever the
  -- storage holds.
  pub is_feed_matching_overrun :
      (q : QueryRec) (qs : List QueryRec) (r : QueryRec) (job : Bytes) (attrs : List AttrVal)
      → All (IsMet attrs) (q ∷ qs)
      → first_named r.attr attrs ≡ none
      → length qs + 2 ≤ 100
      → is_feed_matching b ps get_attrs (some (q ∷ (qs ++ r ∷ []))) job attrs ≡ fault
  unfolding is_feed_matching
  is_feed_matching_overrun q qs r job attrs h e le =
      rw (told_behind query_max (q ∷ qs) r attrs h e (omega arith), overrun q qs r) refl
