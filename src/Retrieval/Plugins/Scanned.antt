-- ===== src/Retrieval/Plugins/Scanned.antt =====
-- The namespaces that scan_namespaces of org.glite.jp.primary/src/attrs.c finds.
use glite_jp.Base.{
  [], ◌∷◌, Bytes, same, Bool-cases, false, none, List, All, All-append, ◌≡◌, inl, inr, refl,
}
use glite_jp.Retrieval.Plugins.{Plugin, Slot, Namespace, added_to, with_names, scan_namespaces}

module _ {P : Type 0} where
  -- no plugin has the namespace
  abbrev pub Unread : Bytes → Plugin P → Type 0
  Unread name p = All (λ (m : Bytes). same name m ≡ false) p.namespaces

  abbrev pub NotNamed : Bytes → Namespace P → Type 0
  NotNamed name n = same name n.space ≡ false

  abbrev pub AtRest : Namespace P → Type 0
  AtRest n = All (λ (t : Slot P). t.held ≡ none) n.slots

  added-NotNamed :
      (name m : Bytes) (p : Plugin P) (ns : List (Namespace P))
      → same name m ≡ false
      → All (NotNamed name) ns
      → All (NotNamed name) (added_to m p ns)
  added-NotNamed name m p [] h w = (h, tt)
  added-NotNamed name m p (n ∷ ns) h (u, w) = elim (Bool-cases (same m n.space)) [
    | inl e ↦ rw (e, added_to) (h, w)
    | inr e ↦ rw (e, added_to) (u, added-NotNamed name m p ns h w)
  ]

  names-NotNamed :
      (name : Bytes) (ms : List Bytes) (p : Plugin P) (ns : List (Namespace P))
      → All (λ (m : Bytes). same name m ≡ false) ms
      → All (NotNamed name) ns
      → All (NotNamed name) (with_names ms p ns)
  names-NotNamed name [] p ns h w = w
  names-NotNamed name (m ∷ ms) p ns (h, k) w =
      names-NotNamed name ms p (added_to m p ns) k (added-NotNamed name m p ns h w)

  pub scan-NotNamed :
      (name : Bytes) (ps : List (Plugin P)) (ns : List (Namespace P))
      → All (Unread name) ps
      → All (NotNamed name) ns
      → All (NotNamed name) (scan_namespaces ps ns)
  unfolding scan_namespaces
  scan-NotNamed name [] ns h w = w
  scan-NotNamed name (p ∷ ps) ns (h, k) w =
      scan-NotNamed name ps (with_names p.namespaces p ns) k
        (names-NotNamed name p.namespaces p ns h w)

  added-AtRest :
      (m : Bytes) (p : Plugin P) (ns : List (Namespace P))
      → All AtRest ns
      → All AtRest (added_to m p ns)
  added-AtRest m p [] w = ((refl, tt), tt)
  added-AtRest m p (n ∷ ns) (u, w) = elim (Bool-cases (same m n.space)) [
    | inl e ↦
        rw (e, added_to) (All-append (λ (t : Slot P). t.held ≡ none) n.slots _ u (refl, tt), w)
    | inr e ↦ rw (e, added_to) (u, added-AtRest m p ns w)
  ]

  names-AtRest :
      (ms : List Bytes) (p : Plugin P) (ns : List (Namespace P))
      → All AtRest ns
      → All AtRest (with_names ms p ns)
  names-AtRest [] p ns w = w
  names-AtRest (m ∷ ms) p ns w = names-AtRest ms p (added_to m p ns) (added-AtRest m p ns w)

  pub scan-AtRest :
      (ps : List (Plugin P)) (ns : List (Namespace P))
      → All AtRest ns
      → All AtRest (scan_namespaces ps ns)
  unfolding scan_namespaces
  scan-AtRest [] ns w = w
  scan-AtRest (p ∷ ps) ns w =
      scan-AtRest ps (with_names p.namespaces p ns) (names-AtRest p.namespaces p ns w)
