-- ===== src/Fs/Ready.antt =====
-- What `os.MkdirAll` has done when it succeeds: the path leads to a directory.
use mathlib.Core.List.{append_assoc, append-nil}
use mathlib.Core.Path.{subst}
use mdtree.Prelude.{
  ℕ, Bytes, ◌≡◌, inl, inr, sym, ◌∙◌, refl, List, [], ◌∷◌, ◌++◌, Option, none, some, arith, ap, All,
  All-append,
}
use mdtree.Result.{ok, err, bind-eq-ok}
use mdtree.FilePath.{elems}
use mdtree.FilePath.Split.{IsElem}
use mdtree.Fs.Node.{
  enoent, kernel_links, Node, dir, file, link, Loc, Fs, node_at, parent, walk, walk_elems, put,
}
use mdtree.Fs.Nodes.{node_at-put}
use mdtree.Fs.Reads.{IoResult, locate_elems, stat, stat_elems, last_name, or_enoent}
use mdtree.Fs.Writes.{mkdir, mkdir_from, mkdir_all}
use mdtree.Fs.Fewer.{in_dir-eq-ok, value}
use mdtree.Fs.Last.{last-IsElem, parent-last}
use mdtree.Fs.Temp.{top_taken, Result-cases}
use mdtree.Fs.Grown.{
  IsGrown, mkdir_from-after_stat, after_stat, after_mkdir, mkdir-Grown, grown_more,
}
use mdtree.Fs.More.{walk-More}
use mdtree.Fs.Arrival.{walk-Arrives}

-- The names lead to a directory.
abbrev Leads : Fs → List Bytes → Type 0
Leads fs es = (t : ℕ) × (stat_elems fs es ≡ ok (dir t))

made_at :
    (es : List Bytes) (fs : Fs)
    → (mkdir es fs).0 ≡ ok tt
    → (l : Loc) × (locate_elems fs es ≡ ok l)
      × (node_at fs l ≡ none)
      × ((mkdir es fs).1 ≡ put l (dir fs.now) fs)
unfolding mkdir
made_at es fs q = elim (Result-cases (locate_elems fs es)) [
  | inr (e, p) ↦ absurd (ground arith)
  | inl (l, p) ↦ go l p (node_at fs l) refl
]
  where
    go :
        (l : Loc)
        → locate_elems fs es ≡ ok l
        → (n : Option Node) → node_at fs l ≡ n
        → (l : Loc) × (locate_elems fs es ≡ ok l)
          × (node_at fs l ≡ none)
          × ((mkdir es fs).1 ≡ put l (dir fs.now) fs)
    go l p none o = (l, p, o, ground arith)
    go l p (some n) o = absurd (ground arith)

still_dir :
    (now t : ℕ) (n n' : Option Node) → IsGrown now n n' → n ≡ some (dir t) → n' ≡ some (dir t)
still_dir now t n n' (inl p) q = p ∙ q
still_dir now t n n' (inr (p, p')) q = cc

put_there : (fs : Fs) (l : Loc) (n : Node) → node_at fs l ≡ none → node_at (put l n fs) l ≡ some n
put_there fs l n free = node_at-put l l n fs (top_taken fs l free) ∙ ground arith

mkdir-Leads :
    (es : List Bytes) (fs : Fs) → All IsElem es → (mkdir es fs).0 ≡ ok tt → Leads (mkdir es fs).1 es
unfolding locate_elems stat_elems
mkdir-Leads [] fs h q =
    let (l, p, free, _) = made_at [] fs q in absurd (top_taken fs l free (sym (ap (value l) p)))
mkdir-Leads (e ∷ es) fs h q =
    let (l, p, free, made) = made_at (e ∷ es) fs q in
    let (d, w, i) = bind-eq-ok _ _ p in
    let (t, at, place) = in_dir-eq-ok (node_at fs d) (d ++ (last_name e es ∷ [])) l i in
    let fs' : Fs = (mkdir (e ∷ es) fs).1 in
    let grown = mkdir-Grown (e ∷ es) fs in
    let x = last_name e es in
    let there =
      ap (node_at fs') place ∙ ap (λ z. node_at z l) made ∙ put_there fs l (dir fs.now) free in
    let before =
      walk-More kernel_links fs fs'
        (λ k. grown_more fs.now (node_at fs k) (node_at fs' k) (grown.nodes k)) [] (parent (e ∷ es))
        d w in
    let led =
      walk-Arrives fs' x d t fs.now
        (still_dir fs.now t (node_at fs d) (node_at fs' d) (grown.nodes d) at) (last-IsElem e es h)
        there kernel_links [] (parent (e ∷ es)) before in
    (fs.now, rw (sym (ap (walk kernel_links fs' []) (parent-last e es)) ∙ led) (ap or_enoent there))

module _ (here es : List Bytes) (fs : Fs) (plain : All IsElem here)
    (rest : (fs' : Fs)
      → Leads fs' here
      → (mkdir_from here es fs').0 ≡ ok tt
      → Leads (mkdir_from here es fs').1 (here ++ es)) where
  after_mkdir-Leads :
      (x : IoResult (Unit {0}) × Fs)
      → (x.0 ≡ ok tt → Leads x.1 here)
      → (after_mkdir here es x).0 ≡ ok tt
      → Leads (after_mkdir here es x).1 (here ++ es)
  after_mkdir-Leads (ok u, fs') made q = rest fs' (made refl) q
  after_mkdir-Leads (err c, fs') made q = cc

  after_stat-Leads :
      (r : IoResult Node)
      → stat_elems fs here ≡ r
      → (after_stat here es fs r).0 ≡ ok tt
      → Leads (after_stat here es fs r).1 (here ++ es)
  after_stat-Leads (ok (dir t)) p q = rest fs (t, p) q
  after_stat-Leads (ok (file c t)) p q = cc
  after_stat-Leads (ok (link l t)) p q = cc
  after_stat-Leads (err enoent) p q =
      after_mkdir-Leads (mkdir here fs) (mkdir-Leads here fs plain) q
  after_stat-Leads (err _) p q = cc

nil-Leads :
    (done : List Bytes) (fs : Fs) → Leads fs done → Leads (mkdir_from done [] fs).1 (done ++ [])
unfolding mkdir_from
nil-Leads done fs = subst (Leads fs) (sym (append-nil done))

mkdir_from-Leads :
    (done es : List Bytes) (fs : Fs)
    → All IsElem done
    → All IsElem es
    → Leads fs done
    → (mkdir_from done es fs).0 ≡ ok tt
    → Leads (mkdir_from done es fs).1 (done ++ es)
mkdir_from-Leads done [] fs h k led q = nil-Leads done fs led
mkdir_from-Leads done (e ∷ es) fs h k led q =
    let here = done ++ (e ∷ []) in
    let plain = All-append IsElem done (e ∷ []) h (k.0, tt) in
    let step = mkdir_from-after_stat done e es fs (stat_elems fs here) refl in
    subst (Leads (mkdir_from done (e ∷ es) fs).1) (append_assoc done (e ∷ []) es) (
      subst (λ x. Leads x.1 (here ++ es)) (sym step)
        (after_stat-Leads here es fs plain
          (λ fs' led' q'. mkdir_from-Leads here es fs' plain k.1 led' q') (stat_elems fs here) refl
          (sym (ap (λ x. x.0) step) ∙ q)))

top-Leads : (fs : Fs) → Leads fs []
unfolding stat_elems walk walk_elems node_at
top-Leads fs = (0, refl)

-- Where making a directory with its parents succeeds, the path leads to a directory, if its elements
-- are plain names.
pub mkdir_all-stat :
    (p : Bytes) (fs : Fs)
    → All IsElem (elems p)
    → (mkdir_all p fs).0 ≡ ok tt
    → (t : ℕ) × (stat (mkdir_all p fs).1 p ≡ ok (dir t))
unfolding mkdir_all stat
mkdir_all-stat p fs h q = mkdir_from-Leads [] (elems p) fs tt h (top-Leads fs) q
