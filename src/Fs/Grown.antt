-- ===== src/Fs/Grown.antt =====
-- What `os.MkdirAll` does to the tree: it makes directories where nothing was, and no more.
use mathlib.Core.Path.{subst}
use mdtree.Prelude.{
  ℕ, Bytes, ◌≡◌, ◌⊎◌, inl, inr, ◌∙◌, refl, sym, List, [], ◌∷◌, ◌++◌, Option, none, some, arith,
}
use mdtree.Result.{ok, err}
use mdtree.FilePath.{elems}
use mdtree.Fs.Node.{enoent, enotdir, Node, dir, file, link, Loc, Fs, node_at, put}
use mdtree.Fs.Nodes.{node_at-put}
use mdtree.Fs.Reads.{IoResult, locate_elems, stat_elems}
use mdtree.Fs.Writes.{mkdir, mkdir_from, mkdir_all}
use mdtree.Fs.Temp.{top_taken, Result-cases}

-- A location is as it was, or a new directory stands there.
abbrev pub IsGrown : ℕ → Option Node → Option Node → Type 0
IsGrown now n n' = (n' ≡ n) ⊎ ((n ≡ none) × (n' ≡ some (dir now)))

pub record Grown (fs fs' : Fs) : Type 0 where
  pub now : fs'.now ≡ fs.now
  pub nodes : (k : Loc) → IsGrown fs.now (node_at fs k) (node_at fs' k)

pub grown_more : (now : ℕ) (n n' : Option Node) → IsGrown now n n' → (n' ≡ n) ⊎ (n ≡ none)
grown_more now n n' (inl p) = inl p
grown_more now n n' (inr (p, q)) = inr p

same-Grown : (fs : Fs) → Grown fs fs
same-Grown fs = record { now = refl; nodes = λ k. inl refl }

IsGrown-trans :
    (now : ℕ) (a b c : Option Node) → IsGrown now a b → IsGrown now b c → IsGrown now a c
IsGrown-trans now a b c p q = ground arith

Grown-trans : (a b c : Fs) → Grown a b → Grown b c → Grown a c
Grown-trans a b c p q = record {
  now = q.now ∙ p.now;
  nodes = λ k.
      IsGrown-trans a.now (node_at a k) (node_at b k) (node_at c k) (p.nodes k)
        (subst (λ t. IsGrown t (node_at b k) (node_at c k)) p.now (q.nodes k));
}

put-Grown : (fs : Fs) (l : Loc) → node_at fs l ≡ none → Grown fs (put l (dir fs.now) fs)
unfolding put
put-Grown fs l free = record {
  now = refl;
  nodes = λ k. ground (arith, node_at-put l k (dir fs.now) fs (top_taken fs l free));
}

pub mkdir-Grown : (es : List Bytes) (fs : Fs) → Grown fs (mkdir es fs).1
unfolding mkdir
mkdir-Grown es fs = elim (Result-cases (locate_elems fs es)) [
  | inr (e, q) ↦ subst (Grown fs) (ground arith) (same-Grown fs)
  | inl (l, q) ↦ at_node l q (node_at fs l) refl
]
  where
    at_node :
        (l : Loc)
        → locate_elems fs es ≡ ok l
        → (n : Option Node) → node_at fs l ≡ n
        → Grown fs (mkdir es fs).1
    at_node l q none p = subst (Grown fs) (ground arith) (put-Grown fs l p)
    at_node l q (some n) p = subst (Grown fs) (ground arith) (same-Grown fs)

abbrev pub after_mkdir :
    List Bytes → List Bytes → IoResult (Unit {0}) × Fs → IoResult (Unit {0}) × Fs
after_mkdir here es (ok u, fs) = mkdir_from here es fs
after_mkdir here es (err c, fs) = (err c, fs)

abbrev pub after_stat : List Bytes → List Bytes → Fs → IoResult Node → IoResult (Unit {0}) × Fs
after_stat here es fs (ok (dir t)) = mkdir_from here es fs
after_stat here es fs (ok n) = (err enotdir, fs)
after_stat here es fs (err enoent) = after_mkdir here es (mkdir here fs)
after_stat here es fs (err c) = (err c, fs)

made_or_not :
    (here es : List Bytes) (x : IoResult (Unit {0}) × Fs)
    → (elim x.0 [ err c ↦ (err c, x.1) | ok _ ↦ mkdir_from here es x.1 ]) ≡ after_mkdir here es x
made_or_not here es (ok u, fs) = refl
made_or_not here es (err c, fs) = refl

pub mkdir_from-after_stat :
    (done : List Bytes) (e : Bytes) (es : List Bytes) (fs : Fs) (r : IoResult Node)
    → stat_elems fs (done ++ (e ∷ [])) ≡ r
    → mkdir_from done (e ∷ es) fs ≡ after_stat (done ++ (e ∷ [])) es fs r
unfolding mkdir_from
mkdir_from-after_stat done e es fs (ok (dir t)) q = rw (q, mkdir_from)
mkdir_from-after_stat done e es fs (ok (file c t)) q = rw (q, mkdir_from)
mkdir_from-after_stat done e es fs (ok (link l t)) q = rw (q, mkdir_from)
mkdir_from-after_stat done e es fs (err enoent) q =
    rw (q, mkdir_from) (made_or_not (done ++ (e ∷ [])) es (mkdir (done ++ (e ∷ [])) fs))
mkdir_from-after_stat done e es fs (err _) q = rw (q, mkdir_from)

mkdir_from_nil-Grown : (done : List Bytes) (fs : Fs) → Grown fs (mkdir_from done [] fs).1
unfolding mkdir_from
mkdir_from_nil-Grown done fs = same-Grown fs

module _ (here es : List Bytes) (fs : Fs)
    (rest : (fs' : Fs) → Grown fs' (mkdir_from here es fs').1) where
  after_mkdir-Grown :
      (x : IoResult (Unit {0}) × Fs) → Grown fs x.1 → Grown fs (after_mkdir here es x).1
  after_mkdir-Grown (ok u, fs') g = Grown-trans fs fs' _ g (rest fs')
  after_mkdir-Grown (err c, fs') g = g

  after_stat-Grown : (r : IoResult Node) → Grown fs (after_stat here es fs r).1
  after_stat-Grown (ok (dir t)) = rest fs
  after_stat-Grown (ok (file c t)) = same-Grown fs
  after_stat-Grown (ok (link l t)) = same-Grown fs
  after_stat-Grown (err enoent) = after_mkdir-Grown (mkdir here fs) (mkdir-Grown here fs)
  after_stat-Grown (err _) = same-Grown fs

mkdir_from-Grown : (done es : List Bytes) (fs : Fs) → Grown fs (mkdir_from done es fs).1
mkdir_from-Grown done [] fs = mkdir_from_nil-Grown done fs
mkdir_from-Grown done (e ∷ es) fs =
    let here = done ++ (e ∷ []) in
    subst (λ x. Grown fs x.1) (sym (mkdir_from-after_stat done e es fs (stat_elems fs here) refl))
      (after_stat-Grown here es fs (λ fs'. mkdir_from-Grown here es fs') (stat_elems fs here))

-- Making a directory with its parents, whether it succeeds or fails on the way, only adds
-- directories.
pub mkdir_all-Grown : (p : Bytes) (fs : Fs) → Grown fs (mkdir_all p fs).1
unfolding mkdir_all
mkdir_all-Grown p fs = mkdir_from-Grown [] (elems p) fs
