-- ===== src/Fs/More.antt =====
-- A tree of files in which nodes were added: a path that leads somewhere still leads there.
use mdtree.Prelude.{
  ℕ, zero, suc, Bytes, bytes_eq, ◌≡◌, ◌⊎◌, inl, inr, refl, List, [], ◌∷◌, ◌++◌, Option, none, some,
  arith, ◌||◌, Bool-cases, false, if◌then◌else◌,
}
use mdtree.Result.{Result, ok, err, bind-eq-ok}
use mdtree.FilePath.{dot, dotdot, is_abs, split_slash, elems}
use mdtree.Fs.Node.{
  Errno, eloop, Node, dir, file, link, Loc, Fs, node_at, parent, walk_elems, walk, kernel_links,
}
use mdtree.Fs.Reads.{stat_elems, stat, or_enoent}

abbrev pub More : Fs → Fs → Type 0
More fs fs' = (k : Loc) → (node_at fs' k ≡ node_at fs k) ⊎ (node_at fs k ≡ none)

abbrev Follow : Type 0
Follow = Loc → List Bytes → Result Errno Loc

abbrev Reaches : Follow → Follow → Type 0
Reaches f f' = (done : Loc) (es : List Bytes) (l : Loc) → f done es ≡ ok l → f' done es ≡ ok l

name_more :
    (fs fs' : Fs) (f f' : Follow) (done : Loc) (e : Bytes) (es : List Bytes) (l : Loc)
    (n : Option Node)
    → node_at fs (done ++ (e ∷ [])) ≡ n
    → (node_at fs' (done ++ (e ∷ [])) ≡ n) ⊎ (n ≡ none)
    → Reaches f f'
    → (walk_elems fs f (done ++ (e ∷ [])) es ≡ ok l
        → walk_elems fs' f' (done ++ (e ∷ [])) es ≡ ok l)
    → bytes_eq e [] || bytes_eq e dot ≡ false
    → bytes_eq e dotdot ≡ false
    → walk_elems fs f done (e ∷ es) ≡ ok l
    → walk_elems fs' f' done (e ∷ es) ≡ ok l
unfolding walk_elems
name_more fs fs' f f' done e es l none q s r next a b w = ground arith
name_more fs fs' f f' done e es l (some (dir m)) q s r next a b w =
    ground (arith, next (ground arith))
name_more fs fs' f f' done e es l (some (file c m)) q s r next a b w = ground arith
name_more fs fs' f f' done e es l (some (link target m)) q s r next a b w =
    ground
      (arith, r (if is_abs target then [] else done) (split_slash target ++ es) l (ground arith))

walk_elems-More :
    (fs fs' : Fs) (f f' : Follow)
    → More fs fs'
    → Reaches f f'
    → Reaches (walk_elems fs f) (walk_elems fs' f')
unfolding walk_elems
walk_elems-More fs fs' f f' same r done [] l w = w
walk_elems-More fs fs' f f' same r done (e ∷ es) l w =
    elim (Bool-cases (bytes_eq e [] || bytes_eq e dot)) [
      | inl a ↦ rw a (walk_elems-More fs fs' f f' same r done es l (ground arith))
      | inr a ↦ elim (Bool-cases (bytes_eq e dotdot)) [
        | inl b ↦ rw (a, b) (walk_elems-More fs fs' f f' same r (parent done) es l (ground arith))
        | inr b ↦
            name_more fs fs' f f' done e es l (node_at fs (done ++ (e ∷ []))) refl
              (same (done ++ (e ∷ []))) r
              (λ w'. walk_elems-More fs fs' f f' same r (done ++ (e ∷ [])) es l w') a b w
      ]
    ]

pub walk-More : (links : ℕ) (fs fs' : Fs) → More fs fs' → Reaches (walk links fs) (walk links fs')
unfolding walk
walk-More zero fs fs' same =
    walk_elems-More fs fs' (λ _ _. err eloop) (λ _ _. err eloop) same (λ done es l w. cc)
walk-More (suc links) fs fs' same =
    walk_elems-More fs fs' (walk links fs) (walk links fs') same (walk-More links fs fs' same)

kept_node :
    (o o' : Option Node) (n : Node)
    → (o' ≡ o) ⊎ (o ≡ none)
    → or_enoent o ≡ ok n
    → or_enoent o' ≡ ok n
kept_node none o' n s q = cc
kept_node (some m) o' n s q = ground arith

-- What can be looked at is there as it was.
pub stat-More :
    (fs fs' : Fs) (p : Bytes) (n : Node) → More fs fs' → stat fs p ≡ ok n → stat fs' p ≡ ok n
unfolding stat stat_elems
stat-More fs fs' p n same q =
    let (l, w, looked) = bind-eq-ok _ (λ l. or_enoent (node_at fs l)) q in
    rw (walk-More kernel_links fs fs' same [] (elems p) l w)
      (kept_node (node_at fs l) (node_at fs' l) n (same l) looked)
