-- ===== src/Fs/Found.antt =====
-- A path that is located at a file leads there.
use mdtree.Prelude.{
  ℕ, zero, suc, Bytes, ◌≡◌, ◌≢◌, sym, ◌∙◌, List, [], ◌∷◌, ◌++◌, Option, none, some, arith, ap, All,
}
use mdtree.Result.{Result, ok, err, bind-eq-ok}
use mdtree.FilePath.Split.{IsElem}
use mdtree.Fs.Node.{
  kernel_links, Errno, eloop, Node, dir, file, Loc, Fs, node_at, parent, walk_elems, walk,
}
use mdtree.Fs.Reads.{locate_elems, stat_elems, last_name, or_enoent}
use mdtree.Fs.Fewer.{in_dir-eq-ok, value}
use mdtree.Fs.Last.{walk-Splits, last-IsElem, parent-last}

walk_elems-file :
    (fs : Fs) (f : Loc → List Bytes → Result Errno Loc) (d : Loc) (x c : Bytes) (m : ℕ) (l : Loc)
    → IsElem x
    → node_at fs (d ++ (x ∷ [])) ≡ some (file c m)
    → walk_elems fs f d (x ∷ []) ≡ ok l
    → d ++ (x ∷ []) ≡ l
unfolding walk_elems
walk_elems-file fs f d x c m l h q w = ground arith

walk-file :
    (n : ℕ) (fs : Fs) (d : Loc) (x c : Bytes) (m : ℕ) (l : Loc)
    → IsElem x
    → node_at fs (d ++ (x ∷ [])) ≡ some (file c m)
    → walk n fs d (x ∷ []) ≡ ok l
    → d ++ (x ∷ []) ≡ l
unfolding walk
walk-file zero fs = walk_elems-file fs (λ _ _. err eloop)
walk-file (suc n) fs = walk_elems-file fs (walk n fs)

of_or_enoent : (o : Option Node) (n k : Node) → or_enoent o ≡ ok n → o ≡ some k → n ≡ k
of_or_enoent none n k q p = cc
of_or_enoent (some j) n k q p = cc

-- What is looked at is the file at the location.
pub stat_elems-file :
    (fs : Fs) (es : List Bytes) (t : Loc) (n : Node) (c : Bytes) (m : ℕ)
    → All IsElem es
    → locate_elems fs es ≡ ok t
    → node_at fs t ≡ some (file c m)
    → stat_elems fs es ≡ ok n
    → n ≡ file c m
unfolding locate_elems stat_elems node_at
stat_elems-file fs [] t n c m h q p r = absurd (top (ap (node_at fs) (ap (value t) q) ∙ p))
  where
    top : node_at fs [] ≢ some (file c m)
    top e = cc
stat_elems-file fs (e ∷ es) t n c m h q p r =
    let (d, w, i) = bind-eq-ok _ _ q in
    let (k, at, place) = in_dir-eq-ok (node_at fs d) (d ++ (last_name e es ∷ [])) t i in
    let (l, w', looked) = bind-eq-ok _ (λ l. or_enoent (node_at fs l)) r in
    let (links, step) =
      walk-Splits fs (last_name e es) d l k at kernel_links [] (parent (e ∷ es)) w
        (ap (walk kernel_links fs []) (parent-last e es) ∙ w') in
    let there = ap (node_at fs) place ∙ p in
    let same = walk-file links fs d (last_name e es) c m l (last-IsElem e es h) there step in
    of_or_enoent (node_at fs l) n (file c m) looked (ap (node_at fs) (sym same) ∙ there)

walk_elems-dir :
    (fs : Fs) (f : Loc → List Bytes → Result Errno Loc) (d : Loc) (x : Bytes) (m : ℕ) (l : Loc)
    → IsElem x
    → node_at fs (d ++ (x ∷ [])) ≡ some (dir m)
    → walk_elems fs f d (x ∷ []) ≡ ok l
    → d ++ (x ∷ []) ≡ l
unfolding walk_elems
walk_elems-dir fs f d x m l h q w = ground arith

walk-dir :
    (n : ℕ) (fs : Fs) (d : Loc) (x : Bytes) (m : ℕ) (l : Loc)
    → IsElem x
    → node_at fs (d ++ (x ∷ [])) ≡ some (dir m)
    → walk n fs d (x ∷ []) ≡ ok l
    → d ++ (x ∷ []) ≡ l
unfolding walk
walk-dir zero fs = walk_elems-dir fs (λ _ _. err eloop)
walk-dir (suc n) fs = walk_elems-dir fs (walk n fs)

-- What is looked at is the directory at the location.
pub stat_elems-dir :
    (fs : Fs) (es : List Bytes) (t : Loc) (n : Node) (m : ℕ)
    → All IsElem es
    → locate_elems fs es ≡ ok t
    → node_at fs t ≡ some (dir m)
    → stat_elems fs es ≡ ok n
    → n ≡ dir m
unfolding locate_elems stat_elems walk walk_elems
stat_elems-dir fs [] t n m h q p r =
    of_or_enoent (node_at fs []) n (dir m) r (ap (node_at fs) (ap (value t) q) ∙ p)
stat_elems-dir fs (e ∷ es) t n m h q p r =
    let (d, w, i) = bind-eq-ok _ _ q in
    let (k, at, place) = in_dir-eq-ok (node_at fs d) (d ++ (last_name e es ∷ [])) t i in
    let (l, w', looked) = bind-eq-ok _ (λ l. or_enoent (node_at fs l)) r in
    let (links, step) =
      walk-Splits fs (last_name e es) d l k at kernel_links [] (parent (e ∷ es)) w
        (ap (walk kernel_links fs []) (parent-last e es) ∙ w') in
    let there = ap (node_at fs) place ∙ p in
    let same = walk-dir links fs d (last_name e es) m l (last-IsElem e es h) there step in
    of_or_enoent (node_at fs l) n (dir m) looked (ap (node_at fs) (sym same) ∙ there)
