-- ===== src/Fs/Moved.antt =====
-- What `rename(2)` does to the nodes when what it moves is no directory.
use mathlib.Core.Logic.{ite}
use mdtree.Prelude.{
  ℕ, Bytes, ◌≡◌, ◌≢◌, inl, inr, sym, ap, ◌∙◌, refl, [], ◌∷◌, Option, none, some, arith,
}
use mdtree.Result.{ok}
use mdtree.Fs.Node.{Node, dir, file, link, Loc, loc_discrete, Fs, node_at, put, delete}
use mdtree.Fs.Nodes.{node_at-put, node_at-delete}
use mdtree.Fs.Reads.{locate}
use mdtree.Fs.Temp.{Result-cases}
use mdtree.Fs.Writes.{rename_file_at, rename_at, rename}

-- One node has a new location, and every other location holds what it held.
pub record Moved (a b : Bytes) (fs fs' : Fs) : Type 0 where
  pub s : Loc
  pub t : Loc
  pub n : Node
  pub from_at : locate fs a ≡ ok s
  pub to_at : locate fs b ≡ ok t
  pub here : node_at fs s ≡ some n
  pub nodes :
      (k : Loc)
      → node_at fs' k ≡ ite (loc_discrete k t) (some n) (ite (loc_discrete k s) none (node_at fs k))

abbrev Nodes : Loc → Loc → Node → Fs → Fs → Type 0
Nodes s t n fs fs' =
    (k : Loc)
    → node_at fs' k ≡ ite (loc_discrete k t) (some n) (ite (loc_discrete k s) none (node_at fs k))

replaced :
    (s t : Loc) (n : Node) (fs : Fs)
    → s ≢ []
    → t ≢ []
    → Nodes s t n fs (put t n (delete s (delete t fs)))
replaced s t n fs p q k =
    rw
      (
        node_at-put t k n (delete s (delete t fs)) q,
        node_at-delete s k (delete t fs) p,
        node_at-delete t k fs q,
      )
      (ground arith)

stays : (s t : Loc) (n : Node) (fs : Fs) → node_at fs s ≡ some n → s ≡ t → Nodes s t n fs fs
stays s t n fs p q k = ground (arith, ap (node_at fs))

not_top : (fs : Fs) (s : Loc) → ((m : ℕ) → node_at fs s ≢ some (dir m)) → s ≢ []
unfolding node_at
not_top fs [] h = absurd (h 0 refl)
not_top fs (e ∷ es) h = λ q. cc

onto_top :
    (fs : Fs) (s t : Loc) (n : Node) → (rename_file_at s n t (node_at fs t) fs).0 ≡ ok tt → t ≢ []
unfolding node_at rename_file_at
onto_top fs s [] n q = cc
onto_top fs s (e ∷ es) n q = λ p. cc

file_moved :
    (s t : Loc) (n : Node) (o : Option Node) (fs : Fs)
    → node_at fs s ≡ some n
    → s ≢ []
    → t ≢ []
    → (rename_file_at s n t o fs).0 ≡ ok tt
    → Nodes s t n fs (rename_file_at s n t o fs).1
unfolding rename_file_at
file_moved s t n o fs p top q r = elim (loc_discrete s t) [
  | yes e ↦ λ k. ground (arith, stays s t n fs p e k)
  | no e ↦ λ k. ground (arith, replaced s t n fs top q k)
]

at_file :
    (s t : Loc) (fs : Fs)
    → ((m : ℕ) → node_at fs s ≢ some (dir m))
    → (rename_at s t fs).0 ≡ ok tt
    → (n : Node) × (node_at fs s ≡ some n)
      × (rename_at s t fs ≡ rename_file_at s n t (node_at fs t) fs)
unfolding rename_at
at_file s t fs h r = go (node_at fs s) refl
  where
    go :
        (o : Option Node)
        → node_at fs s ≡ o
        → (n : Node) × (node_at fs s ≡ some n)
          × (rename_at s t fs ≡ rename_file_at s n t (node_at fs t) fs)
    go none q = absurd (ground arith)
    go (some (dir m)) q = absurd (h m q)
    go (some (file c m)) q = (file c m, q, ground arith)
    go (some (link target m)) q = (link target m, q, ground arith)

both_located :
    (a b : Bytes) (fs : Fs)
    → (rename a b fs).0 ≡ ok tt
    → (s : Loc) × (t : Loc) × (locate fs a ≡ ok s)
      × (locate fs b ≡ ok t)
      × (rename a b fs ≡ rename_at s t fs)
unfolding rename
both_located a b fs r = elim (Result-cases (locate fs a)) [
  | inl (s, p) ↦ elim (Result-cases (locate fs b)) [
    | inl (t, q) ↦ (s, t, p, q, ground arith)
    | inr (e, q) ↦ absurd (ground arith)
  ]
  | inr (e, p) ↦ absurd (ground arith)
]

-- What is moved, when it is no directory, stands at its new location and not at the old one.
pub rename-Moved :
    (a b : Bytes) (fs : Fs)
    → ((s : Loc) (m : ℕ) → locate fs a ≡ ok s → node_at fs s ≢ some (dir m))
    → (rename a b fs).0 ≡ ok tt
    → Moved a b fs (rename a b fs).1
rename-Moved a b fs h r =
    let (s, t, p, q, e) = both_located a b fs r in
    let (n, here, e') = at_file s t fs (λ m. h s m p) (sym (ap (λ x. x.0) e) ∙ r) in
    let whole = e ∙ e' in
    let moved = sym (ap (λ x. x.0) whole) ∙ r in
    let top = not_top fs s (λ m. h s m p) in
    let nodes = file_moved s t n (node_at fs t) fs here top (onto_top fs s t n moved) moved in
    record {
      s = s;
      t = t;
      n = n;
      from_at = p;
      to_at = q;
      here = here;
      nodes = λ k. ap (λ x. node_at x.1 k) whole ∙ nodes k;
    }
