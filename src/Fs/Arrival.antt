-- ===== src/Fs/Arrival.antt =====
-- A walk that goes one name further, into a directory.
use mathlib.Core.List.{append_assoc}
use mathlib.Core.Path.{subst}
use mdtree.Prelude.{
  ℕ, zero, suc, Bytes, bytes_eq, ◌≡◌, ◌≢◌, inl, inr, sym, ◌∙◌, refl, false, List, [], ◌∷◌, ◌++◌,
  Option, none, some, arith, ◌||◌, Bool-cases, ap, if◌then◌else◌,
}
use mdtree.Result.{Result, ok, err}
use mdtree.FilePath.{dot, dotdot, is_abs, split_slash}
use mdtree.FilePath.Split.{IsElem}
use mdtree.Fs.Node.{Errno, eloop, Node, dir, file, link, Loc, Fs, node_at, parent, walk_elems, walk}

module _ (fs : Fs) (x : Bytes) (d : Loc) (t m : ℕ) (at : node_at fs d ≡ some (dir t))
    (plain : IsElem x) (there : node_at fs (d ++ (x ∷ [])) ≡ some (dir m)) where
  abbrev Arrives : (Loc → List Bytes → Result Errno Loc) → Type 0
  Arrives f =
      (done : Loc) (es : List Bytes)
      → f done es ≡ ok d
      → f done (es ++ (x ∷ [])) ≡ ok (d ++ (x ∷ []))

  last-Arrives :
      (f : Loc → List Bytes → Result Errno Loc) → walk_elems fs f d (x ∷ []) ≡ ok (d ++ (x ∷ []))
  unfolding walk_elems
  last-Arrives f = ground arith

  not_file : (l : Loc) (c : Bytes) (k : ℕ) → node_at fs l ≡ some (file c k) → l ≢ d
  not_file l c k p s = absurd (kind (sym p ∙ ap (node_at fs) s ∙ at))
    where
      kind : some (file c k) ≢ some (dir t)
      kind e = cc

  name-Arrives :
      (f : Loc → List Bytes → Result Errno Loc) (done : Loc) (e : Bytes) (es : List Bytes)
      (n : Option Node)
      → node_at fs (done ++ (e ∷ [])) ≡ n
      → Arrives f
      → (walk_elems fs f (done ++ (e ∷ [])) es ≡ ok d
          → walk_elems fs f (done ++ (e ∷ [])) (es ++ (x ∷ [])) ≡ ok (d ++ (x ∷ [])))
      → bytes_eq e [] || bytes_eq e dot ≡ false
      → bytes_eq e dotdot ≡ false
      → walk_elems fs f done (e ∷ es) ≡ ok d
      → walk_elems fs f done (e ∷ (es ++ (x ∷ []))) ≡ ok (d ++ (x ∷ []))
  unfolding walk_elems
  name-Arrives f done e es none q r next a b w = absurd (ground arith)
  name-Arrives f done e es (some (dir k)) q r next a b w = ground (arith, next (ground arith))
  name-Arrives f done e [] (some (file c k)) q r next a b w =
      absurd (not_file (done ++ (e ∷ [])) c k q (ground arith))
  name-Arrives f done e (e' ∷ es) (some (file c k)) q r next a b w = absurd (ground arith)
  name-Arrives f done e es (some (link target k)) q r next a b w = ground (
    arith,
    ap (f (if is_abs target then [] else done)) (append_assoc (split_slash target) es (x ∷ [])),
    r (if is_abs target then [] else done) (split_slash target ++ es) (ground arith),
  )

  walk_elems-Arrives :
      (f : Loc → List Bytes → Result Errno Loc) → Arrives f → Arrives (walk_elems fs f)
  unfolding walk_elems
  walk_elems-Arrives f r done [] w =
      subst (λ y. walk_elems fs f y (x ∷ []) ≡ ok (d ++ (x ∷ []))) (ground arith) (last-Arrives f)
  walk_elems-Arrives f r done (e ∷ es) w = elim (Bool-cases (bytes_eq e [] || bytes_eq e dot)) [
    | inl a ↦ rw a (walk_elems-Arrives f r done es (ground arith))
    | inr a ↦ elim (Bool-cases (bytes_eq e dotdot)) [
      | inl b ↦ rw (a, b) (walk_elems-Arrives f r (parent done) es (ground arith))
      | inr b ↦
          name-Arrives f done e es (node_at fs (done ++ (e ∷ []))) refl r
            (walk_elems-Arrives f r (done ++ (e ∷ [])) es) a b w
    ]
  ]

  pub walk-Arrives : (n : ℕ) → Arrives (walk n fs)
  unfolding walk
  walk-Arrives zero = walk_elems-Arrives (λ _ _. err eloop) (λ done es w. cc)
  walk-Arrives (suc n) = walk_elems-Arrives (walk n fs) (walk-Arrives n)
