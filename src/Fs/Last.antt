-- ===== src/Fs/Last.antt =====
-- The last step of a walk: from the directory that the names before it lead to.
use mathlib.Core.List.{append_assoc}
use mathlib.Core.Path.{subst}
use mdtree.Prelude.{
  ℕ, zero, suc, Bytes, bytes_eq, ◌≡◌, ◌≢◌, inl, inr, sym, ◌∙◌, refl, false, List, [], ◌∷◌, ◌++◌,
  Option, none, some, arith, ◌||◌, Bool-cases, ap, All, if◌then◌else◌,
}
use mdtree.Result.{Result, ok, err, bind-eq-ok}
use mdtree.FilePath.{dot, dotdot, is_abs, split_slash}
use mdtree.FilePath.Split.{IsElem}
use mdtree.Fs.Reads.{locate_elems, stat_elems, last_name}
use mdtree.Fs.Fewer.{in_dir-eq-ok, value}
use mdtree.Fs.Temp.{top_taken}
use mdtree.Fs.Node.{
  kernel_links, Errno, eloop, Node, dir, file, link, Loc, Fs, node_at, parent, walk_elems, walk,
}

module _ (fs : Fs) (x : Bytes) (d l : Loc) (t : ℕ) (at : node_at fs d ≡ some (dir t)) where
  -- From the directory, one step is left, for which some links may be followed.
  abbrev LastStep : Type 0
  LastStep = (m : ℕ) × (walk m fs d (x ∷ []) ≡ ok l)

  abbrev Splits : (Loc → List Bytes → Result Errno Loc) → Type 0
  Splits f =
      (done : Loc) (es : List Bytes) → f done es ≡ ok d → f done (es ++ (x ∷ [])) ≡ ok l → LastStep

  name-Splits :
      (f : Loc → List Bytes → Result Errno Loc) (done : Loc) (e : Bytes) (es : List Bytes)
      (n : Option Node)
      → node_at fs (done ++ (e ∷ [])) ≡ n
      → Splits f
      → (walk_elems fs f (done ++ (e ∷ [])) es ≡ ok d
          → walk_elems fs f (done ++ (e ∷ [])) (es ++ (x ∷ [])) ≡ ok l
          → LastStep)
      → bytes_eq e [] || bytes_eq e dot ≡ false
      → bytes_eq e dotdot ≡ false
      → walk_elems fs f done (e ∷ es) ≡ ok d
      → walk_elems fs f done (e ∷ (es ++ (x ∷ []))) ≡ ok l
      → LastStep
  unfolding walk_elems
  name-Splits f done e es none q r next a b w v = absurd (ground arith)
  name-Splits f done e es (some (dir m)) q r next a b w v = next (ground arith) (ground arith)
  name-Splits f done e es (some (file c m)) q r next a b w v = absurd (ground arith)
  name-Splits f done e es (some (link target m)) q r next a b w v =
      r (if is_abs target then [] else done) (split_slash target ++ es) (ground arith) (
        ap (f (if is_abs target then [] else done)) (append_assoc (split_slash target) es (x ∷ []))
        ∙ ground arith)

  walk_elems-Splits :
      (f : Loc → List Bytes → Result Errno Loc)
      → Splits f
      → (walk_elems fs f d (x ∷ []) ≡ ok l → LastStep)
      → Splits (walk_elems fs f)
  unfolding walk_elems
  walk_elems-Splits f r last done [] w v =
      last (subst (λ y. walk_elems fs f y (x ∷ []) ≡ ok l) (ground arith) v)
  walk_elems-Splits f r last done (e ∷ es) w v =
      elim (Bool-cases (bytes_eq e [] || bytes_eq e dot)) [
        | inl a ↦ walk_elems-Splits f r last done es (ground arith) (ground arith)
        | inr a ↦ elim (Bool-cases (bytes_eq e dotdot)) [
          | inl b ↦ walk_elems-Splits f r last (parent done) es (ground arith) (ground arith)
          | inr b ↦
              name-Splits f done e es (node_at fs (done ++ (e ∷ []))) refl r
                (walk_elems-Splits f r last (done ++ (e ∷ [])) es) a b w v
        ]
      ]

  pub walk-Splits : (n : ℕ) → Splits (walk n fs)
  unfolding walk
  walk-Splits zero = walk_elems-Splits (λ _ _. err eloop) (λ done es w v. cc) (λ w. (zero, w))
  walk-Splits (suc n) = walk_elems-Splits (walk n fs) (walk-Splits n) (λ w. (suc n, w))

-- A step to a plain name leads nowhere where nothing is.
walk_elems-none :
    (fs : Fs) (f : Loc → List Bytes → Result Errno Loc) (d : Loc) (x : Bytes)
    → IsElem x
    → node_at fs (d ++ (x ∷ [])) ≡ none
    → (l : Loc) → walk_elems fs f d (x ∷ []) ≢ ok l
unfolding walk_elems
walk_elems-none fs f d x h q l w = ground arith

walk-none :
    (n : ℕ) (fs : Fs) (d : Loc) (x : Bytes)
    → IsElem x
    → node_at fs (d ++ (x ∷ [])) ≡ none
    → (l : Loc) → walk n fs d (x ∷ []) ≢ ok l
unfolding walk
walk-none zero fs = walk_elems-none fs (λ _ _. err eloop)
walk-none (suc n) fs = walk_elems-none fs (walk n fs)

pub parent-last : (e : Bytes) (es : List Bytes) → parent (e ∷ es) ++ (last_name e es ∷ []) ≡ e ∷ es
parent-last e [] = refl
parent-last e (f ∷ es) = ap (◌∷◌ e) (parent-last f es)

pub last-IsElem : (e : Bytes) (es : List Bytes) → All IsElem (e ∷ es) → IsElem (last_name e es)
last-IsElem e [] h = h.0
last-IsElem e (f ∷ es) h = last-IsElem f es h.1

-- What can be looked at is there where it is located.
pub locate_elems-stat_elems :
    (fs : Fs) (es : List Bytes) (t : Loc) (n : Node)
    → All IsElem es
    → locate_elems fs es ≡ ok t
    → stat_elems fs es ≡ ok n
    → node_at fs t ≢ none
unfolding locate_elems stat_elems
locate_elems-stat_elems fs [] t n h q r free = top_taken fs t free (sym (ap (value t) q))
locate_elems-stat_elems fs (e ∷ es) t n h q r free =
    let (d, w, i) = bind-eq-ok _ _ q in
    let (m, at, place) = in_dir-eq-ok (node_at fs d) (d ++ (last_name e es ∷ [])) t i in
    let (l, w', _) = bind-eq-ok _ _ r in
    let (links, step) =
      walk-Splits fs (last_name e es) d l m at kernel_links [] (parent (e ∷ es)) w
        (ap (walk kernel_links fs []) (parent-last e es) ∙ w') in
    walk-none links fs d (last_name e es) (last-IsElem e es h) (ap (node_at fs) place ∙ free) l step
