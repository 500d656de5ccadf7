-- ===== src/Fs/Fewer.antt =====
-- A tree of files in which some of another's missing nodes and files are something else: a path
-- that leads to a directory in the other leads there in this one too.
use mathlib.Core.Path.{subst}
use mdtree.Prelude.{
  ℕ, zero, suc, Bytes, bytes_eq, ◌≡◌, ◌⊎◌, inl, inr, ◌∙◌, refl, List, [], ◌∷◌, ◌++◌, Option, none,
  some, arith, ◌||◌, Bool-cases, ap, false, if◌then◌else◌,
}
use mdtree.Result.{Result, ok, err, ◌>>=◌, bind-eq-ok}
use mdtree.FilePath.{dot, dotdot, is_abs, split_slash, elems}
use mdtree.Fs.Node.{
  Errno, eloop, Node, dir, file, link, Loc, Fs, node_at, parent, walk_elems, walk, kernel_links,
}
use mdtree.Fs.Reads.{IoResult, locate, locate_elems, last_name, in_dir}

-- No way leads on from here.
abbrev pub EndsAt : Option Node → Type 0
EndsAt none = Unit
EndsAt (some (dir t)) = ⊥
EndsAt (some (file c t)) = Unit
EndsAt (some (link target t)) = ⊥

abbrev pub Fewer : Fs → Fs → Type 0
Fewer fs fs' = (k : Loc) → (node_at fs' k ≡ node_at fs k) ⊎ EndsAt (node_at fs k)

abbrev Follow : Type 0
Follow = Loc → List Bytes → Result Errno Loc

-- What reaches a directory of `fs` is reached as well.
abbrev Reaches : Fs → Follow → Follow → Type 0
Reaches fs f f' =
    (done : Loc) (es : List Bytes) (d : Loc) (t : ℕ)
    → f done es ≡ ok d
    → node_at fs d ≡ some (dir t)
    → f' done es ≡ ok d

name_Fewer :
    (fs fs' : Fs) (f f' : Follow) (done : Loc) (e : Bytes) (es : List Bytes) (d : Loc) (t : ℕ)
    (n : Option Node)
    → node_at fs (done ++ (e ∷ [])) ≡ n
    → (node_at fs' (done ++ (e ∷ [])) ≡ n) ⊎ EndsAt n
    → Reaches fs f f'
    → (walk_elems fs f (done ++ (e ∷ [])) es ≡ ok d
        → walk_elems fs' f' (done ++ (e ∷ [])) es ≡ ok d)
    → node_at fs d ≡ some (dir t)
    → bytes_eq e [] || bytes_eq e dot ≡ false
    → bytes_eq e dotdot ≡ false
    → walk_elems fs f done (e ∷ es) ≡ ok d
    → walk_elems fs' f' done (e ∷ es) ≡ ok d
unfolding walk_elems
name_Fewer fs fs' f f' done e es d t none q s r next at a b w = ground arith
name_Fewer fs fs' f f' done e es d t (some (dir m)) q s r next at a b w =
    ground (arith, next (ground arith))
name_Fewer fs fs' f f' done e es d t (some (file c m)) q s r next at a b w = ground arith
name_Fewer fs fs' f f' done e es d t (some (link target m)) q s r next at a b w =
    ground (
      arith,
      r (if is_abs target then [] else done) (split_slash target ++ es) d t (ground arith) at,
    )

walk_elems-Fewer :
    (fs fs' : Fs) (f f' : Follow)
    → Fewer fs fs'
    → Reaches fs f f'
    → Reaches fs (walk_elems fs f) (walk_elems fs' f')
unfolding walk_elems
walk_elems-Fewer fs fs' f f' same r done [] d t w at = w
walk_elems-Fewer fs fs' f f' same r done (e ∷ es) d t w at =
    elim (Bool-cases (bytes_eq e [] || bytes_eq e dot)) [
      | inl a ↦ rw a (walk_elems-Fewer fs fs' f f' same r done es d t (ground arith) at)
      | inr a ↦ elim (Bool-cases (bytes_eq e dotdot)) [
        | inl b ↦
            rw (a, b) (walk_elems-Fewer fs fs' f f' same r (parent done) es d t (ground arith) at)
        | inr b ↦
            name_Fewer fs fs' f f' done e es d t (node_at fs (done ++ (e ∷ []))) refl
              (same (done ++ (e ∷ []))) r
              (λ w'. walk_elems-Fewer fs fs' f f' same r (done ++ (e ∷ [])) es d t w' at) at a b w
      ]
    ]

pub walk-Fewer :
    (links : ℕ) (fs fs' : Fs) → Fewer fs fs' → Reaches fs (walk links fs) (walk links fs')
unfolding walk
walk-Fewer zero fs fs' same =
    walk_elems-Fewer fs fs' (λ _ _. err eloop) (λ _ _. err eloop) same (λ done es d t w at. cc)
walk-Fewer (suc links) fs fs' same =
    walk_elems-Fewer fs fs' (walk links fs) (walk links fs') same (walk-Fewer links fs fs' same)

abbrev pub value : {A : Type 0} → A → IoResult A → A
value a (ok b) = b
value a (err e) = a

pub in_dir-eq-ok :
    (n : Option Node) (x l : Loc) → in_dir n x ≡ ok l → (t : ℕ) × (n ≡ some (dir t)) × (x ≡ l)
in_dir-eq-ok none x l q = cc
in_dir-eq-ok (some (dir t)) x l q = (t, refl, ap (value x) q)
in_dir-eq-ok (some (file c t)) x l q = cc
in_dir-eq-ok (some (link target t)) x l q = cc

dir_kept :
    (fs fs' : Fs) (d : Loc) (t : ℕ)
    → Fewer fs fs'
    → node_at fs d ≡ some (dir t)
    → node_at fs' d ≡ some (dir t)
dir_kept fs fs' d t same q = elim (same d) [ inl e ↦ e ∙ q | inr e ↦ absurd (subst EndsAt q e) ]

located :
    (fs fs' : Fs) (es : List Bytes) (x : Loc → Loc) (l : Loc)
    → Fewer fs fs'
    → (walk kernel_links fs [] es >>= λ d. in_dir (node_at fs d) (x d)) ≡ ok l
    → (walk kernel_links fs' [] es >>= λ d. in_dir (node_at fs' d) (x d)) ≡ ok l
located fs fs' es x l same q =
    let (d, w, i) = bind-eq-ok (walk kernel_links fs [] es) (λ d. in_dir (node_at fs d) (x d)) q in
    let (t, at, last) = in_dir-eq-ok (node_at fs d) (x d) l i in
    rw (walk-Fewer kernel_links fs fs' same [] es d t w at, dir_kept fs fs' d t same at)
      (ap ok last)

-- A path is located where it was.
pub locate-Fewer :
    (fs fs' : Fs) (p : Bytes) (l : Loc) → Fewer fs fs' → locate fs p ≡ ok l → locate fs' p ≡ ok l
unfolding locate locate_elems
locate-Fewer fs fs' p l same q = at_elems (elems p) q
  where
    at_elems : (es : List Bytes) → locate_elems fs es ≡ ok l → locate_elems fs' es ≡ ok l
    at_elems [] q = q
    at_elems (e ∷ es) q =
        located fs fs' (parent (e ∷ es)) (λ d. d ++ (last_name e es ∷ [])) l same q
