-- ===== src/Fs/Shape.antt =====
-- Trees of files that differ in the content and the times of their files alone: every path leads to
-- the same location in both.
use mdtree.Prelude.{
  ℕ, zero, suc, Bytes, bytes_eq, ◌≡◌, refl, List, [], ◌∷◌, ◌++◌, Option, none, some, arith, ◌||◌,
  ap, if◌then◌else◌,
}
use mdtree.Result.{Result, ok, err, ◌>>=◌}
use mdtree.FilePath.{dot, dotdot, is_abs, split_slash, elems}
use mdtree.Fs.Node.{
  Errno, eloop, enoent, enotdir, Node, dir, file, link, Loc, Fs, node_at, parent, walk_elems, walk,
  kernel_links, is_nil,
}
use mdtree.Fs.Reads.{IoResult, locate, locate_elems, last_name, in_dir}

abbrev pub shape : Option Node → Option Node
shape none = none
shape (some (dir t)) = some (dir 0)
shape (some (file c t)) = some (file [] 0)
shape (some (link target t)) = some (link target 0)

abbrev pub SameShape : Fs → Fs → Type 0
SameShape fs fs' = (k : Loc) → shape (node_at fs' k) ≡ shape (node_at fs k)

abbrev Follow : Type 0
Follow = Loc → List Bytes → Result Errno Loc

abbrev SameWalks : Follow → Follow → Type 0
SameWalks f f' = (done : Loc) (es : List Bytes) → f' done es ≡ f done es

-- What a walk does at a name.
abbrev at_name :
    Follow → Loc → Bytes → List Bytes → Result Errno Loc → Option Node → Result Errno Loc
at_name f done e es next none = err enoent
at_name f done e es next (some (dir t)) = next
at_name f done e es next (some (file c t)) =
    if is_nil es then ok (done ++ (e ∷ [])) else err enotdir
at_name f done e es next (some (link target t)) =
    f (if is_abs target then [] else done) (split_slash target ++ es)

abbrev of_link : Option Node → Bytes
of_link (some (link target t)) = target
of_link n = []

at_name-shape :
    (f f' : Follow) (done : Loc) (e : Bytes) (es : List Bytes) (x x' : Result Errno Loc)
    (n n' : Option Node)
    → SameWalks f f'
    → x' ≡ x
    → shape n' ≡ shape n
    → at_name f' done e es x' n' ≡ at_name f done e es x n
at_name-shape f f' done e es x x' none none s p q = refl
at_name-shape f f' done e es x x' (some (dir t)) (some (dir t')) s p q = p
at_name-shape f f' done e es x x' (some (file c t)) (some (file c' t')) s p q = refl
at_name-shape f f' done e es x x' (some (link l t)) (some (link l' t')) s p q =
    rw (ap of_link q) (s (if is_abs l then [] else done) (split_slash l ++ es))
at_name-shape f f' done e es x x' none (some n) s p q = ground arith
at_name-shape f f' done e es x x' (some n) none s p q = ground arith
at_name-shape f f' done e es x x' (some (dir t)) (some (file c' t')) s p q = ground arith
at_name-shape f f' done e es x x' (some (dir t)) (some (link l' t')) s p q = ground arith
at_name-shape f f' done e es x x' (some (file c t)) (some (dir t')) s p q = ground arith
at_name-shape f f' done e es x x' (some (file c t)) (some (link l' t')) s p q = ground arith
at_name-shape f f' done e es x x' (some (link l t)) (some (dir t')) s p q = ground arith
at_name-shape f f' done e es x x' (some (link l t)) (some (file c' t')) s p q = ground arith

walk_elems-at_name :
    (fs : Fs) (f : Follow) (done : Loc) (e : Bytes) (es : List Bytes)
    → walk_elems fs f done (e ∷ es) ≡ (
        if bytes_eq e [] || bytes_eq e dot
        then walk_elems fs f done es
        else if bytes_eq e dotdot
        then walk_elems fs f (parent done) es
        else at_name f done e es
            (walk_elems fs f (done ++ (e ∷ [])) es)
            (node_at fs (done ++ (e ∷ []))))
unfolding walk_elems
walk_elems-at_name fs f done e es = go (node_at fs (done ++ (e ∷ []))) refl
  where
    go :
        (n : Option Node)
        → node_at fs (done ++ (e ∷ [])) ≡ n
        → walk_elems fs f done (e ∷ es) ≡ (
            if bytes_eq e [] || bytes_eq e dot
            then walk_elems fs f done es
            else if bytes_eq e dotdot
            then walk_elems fs f (parent done) es
            else at_name f done e es (walk_elems fs f (done ++ (e ∷ [])) es) n)
    go none q = rw q refl
    go (some (dir t)) q = rw q refl
    go (some (file c t)) q = rw q refl
    go (some (link l t)) q = rw q refl

walk_elems_nil : (fs : Fs) (f : Follow) (done : Loc) → walk_elems fs f done [] ≡ ok done
unfolding walk_elems
walk_elems_nil fs f done = refl

walk_elems-shape :
    (fs fs' : Fs) (f f' : Follow)
    → SameShape fs fs'
    → SameWalks f f'
    → SameWalks (walk_elems fs f) (walk_elems fs' f')
walk_elems-shape fs fs' f f' same s done [] =
    rw (walk_elems_nil fs f done, walk_elems_nil fs' f' done) refl
walk_elems-shape fs fs' f f' same s done (e ∷ es) =
    rw
      (
        walk_elems-at_name fs f done e es,
        walk_elems-at_name fs' f' done e es,
        walk_elems-shape fs fs' f f' same s done es,
        walk_elems-shape fs fs' f f' same s (parent done) es,
        at_name-shape f f' done e es (walk_elems fs f (done ++ (e ∷ [])) es)
            (walk_elems fs' f' (done ++ (e ∷ [])) es) _ _ s
            (walk_elems-shape fs fs' f f' same s (done ++ (e ∷ [])) es) (same (done ++ (e ∷ []))),
      )
      refl

pub walk-shape :
    (links : ℕ) (fs fs' : Fs) → SameShape fs fs' → SameWalks (walk links fs) (walk links fs')
unfolding walk
walk-shape zero fs fs' same =
    walk_elems-shape fs fs' (λ _ _. err eloop) (λ _ _. err eloop) same (λ done es. refl)
walk-shape (suc links) fs fs' same =
    walk_elems-shape fs fs' (walk links fs) (walk links fs') same (walk-shape links fs fs' same)

in_dir-shape : (n n' : Option Node) (l : Loc) → shape n' ≡ shape n → in_dir n' l ≡ in_dir n l
in_dir-shape n n' l q = ground arith

-- A path is located at the same place.
pub locate-shape : (fs fs' : Fs) (p : Bytes) → SameShape fs fs' → locate fs' p ≡ locate fs p
unfolding locate locate_elems
locate-shape fs fs' p same = at_elems (elems p)
  where
    at_walk :
        (r : IoResult Loc) (e : Bytes)
        → (r >>= λ l. in_dir (node_at fs' l) (l ++ (e ∷ [])))
          ≡ (r >>= λ l. in_dir (node_at fs l) (l ++ (e ∷ [])))
    at_walk (ok l) e = in_dir-shape (node_at fs l) (node_at fs' l) (l ++ (e ∷ [])) (same l)
    at_walk (err c) e = refl

    at_elems : (es : List Bytes) → locate_elems fs' es ≡ locate_elems fs es
    at_elems [] = refl
    at_elems (e ∷ es) =
        rw (walk-shape kernel_links fs fs' same [] (parent (e ∷ es)))
          (at_walk (walk kernel_links fs [] (parent (e ∷ es))) (last_name e es))
