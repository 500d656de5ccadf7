-- ===== src/Fs/Walk.antt =====
-- What a walk yields: a location made of plain names.
use mdtree.Prelude.{
  ℕ, zero, suc, Bytes, bytes_discrete, ◌≡◌, refl, List, [], ◌∷◌, ◌++◌, Option, none, some, arith,
  All, All-append, if◌then◌else◌,
}
use mdtree.Result.{Result, ok, err}
use mdtree.FilePath.{dot, dotdot, is_abs, split_slash}
use mdtree.FilePath.Split.{NoSlash, IsElem, split_slash-NoSlash}
use mdtree.Fs.Node.{Errno, eloop, Node, dir, file, link, Loc, Fs, node_at, parent, walk_elems, walk}

parent-IsElem : (l : Loc) → All IsElem l → All IsElem (parent l)
parent-IsElem [] h = tt
parent-IsElem (e ∷ []) h = tt
parent-IsElem (e ∷ f ∷ l) h = (h.0, parent-IsElem (f ∷ l) h.1)

start-IsElem :
    (target : Bytes) (done : Loc)
    → All IsElem done
    → All IsElem (if is_abs target then [] else done)
start-IsElem target done h = ground arith

abbrev pub KeepsElem : (Loc → List Bytes → Result Errno Loc) → Type 0
KeepsElem follow =
    (done : Loc) (es : List Bytes) (l : Loc)
    → All IsElem done
    → All NoSlash es
    → follow done es ≡ ok l
    → All IsElem l

name_case :
    (fs : Fs) (follow : Loc → List Bytes → Result Errno Loc) (done : Loc) (e : Bytes)
    (es : List Bytes) (l : Loc) (n : Option Node)
    → node_at fs (done ++ (e ∷ [])) ≡ n
    → KeepsElem follow
    → (walk_elems fs follow (done ++ (e ∷ [])) es ≡ ok l → All IsElem l)
    → All IsElem done
    → IsElem e
    → All NoSlash es
    → walk_elems fs follow done (e ∷ es) ≡ ok l
    → All IsElem l
unfolding walk_elems
name_case fs follow done e es l none q keep next h p k w = ground arith
name_case fs follow done e es l (some (dir t)) q keep next h p k w = next (ground arith)
name_case fs follow done e es l (some (file c t)) q keep next h p k w =
    ground (arith, All-append IsElem done (e ∷ []) h (p, tt))
name_case fs follow done e es l (some (link target t)) q keep next h p k w =
    keep (if is_abs target then [] else done) (split_slash target ++ es) l
      (start-IsElem target done h)
      (All-append NoSlash (split_slash target) es (split_slash-NoSlash target) k) (ground arith)

-- The invariant of the loop, for any treatment of links that keeps it.
walk_elems-IsElem :
    (fs : Fs) (follow : Loc → List Bytes → Result Errno Loc)
    → KeepsElem follow
    → KeepsElem (walk_elems fs follow)
unfolding walk_elems
walk_elems-IsElem fs follow keep done [] l h k w = ground arith
walk_elems-IsElem fs follow keep done (e ∷ es) l h k w = elim (bytes_discrete e []) [
  | yes p ↦ walk_elems-IsElem fs follow keep done es l h k.1 (ground arith)
  | no p ↦ elim (bytes_discrete e dot) [
    | yes q ↦ walk_elems-IsElem fs follow keep done es l h k.1 (ground arith)
    | no q ↦ elim (bytes_discrete e dotdot) [
      | yes r ↦
          walk_elems-IsElem fs follow keep (parent done) es l (parent-IsElem done h) k.1
            (ground arith)
      | no r ↦
          name_case fs follow done e es l (node_at fs (done ++ (e ∷ []))) refl keep
            (walk_elems-IsElem fs follow keep (done ++ (e ∷ [])) es l
              (All-append IsElem done (e ∷ []) h ((p, q, r, k.0), tt)) k.1)
            h (p, q, r, k.0) k.1 w
    ]
  ]
]

pub walk-IsElem : (links : ℕ) (fs : Fs) → KeepsElem (walk links fs)
unfolding walk
walk-IsElem zero fs = walk_elems-IsElem fs (λ _ _. err eloop) (λ done es l h k w. cc)
walk-IsElem (suc links) fs = walk_elems-IsElem fs (walk links fs) (walk-IsElem links fs)

-- The top directory is reached at once.
pub walk-nil : (links : ℕ) (fs : Fs) (done : Loc) → walk links fs done [] ≡ ok done
unfolding walk
walk-nil zero fs done = refl
walk-nil (suc links) fs done = refl
