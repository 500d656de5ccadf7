-- ===== src/Files/Resolver/Shaped.antt =====
-- Resolving a path does not depend on the content of files.
use mdtree.Prelude.{ℕ, zero, suc, Bytes, ◌≡◌, ◌∙◌, refl, List, [], ◌∷◌, length}
use mdtree.Result.{ok, err}
use mdtree.FilePath.{elems, dir, base}
use mdtree.Fs.Node.{enoent, Fs}
use mdtree.Fs.Reads.{IoResult}
use mdtree.Fs.Shape.{SameShape, walk-shape}
use mdtree.Files.Resolver.{
  Resolver, go_links, eval_links, eval_symlinks_loop, eval_symlinks, check_links, resolve,
}

eval_links-shape : (fs fs' : Fs) (p : Bytes) → SameShape fs fs' → eval_links fs' p ≡ eval_links fs p
unfolding eval_links
eval_links-shape fs fs' p same = rw (walk-shape go_links fs fs' same [] (elems p)) refl

round_shape :
    (rounds : ℕ) (fs fs' : Fs) (cur : Bytes) (trailing : List Bytes) (w : IoResult Bytes)
    → eval_links fs cur ≡ w
    → eval_links fs' cur ≡ eval_links fs cur
    → eval_symlinks_loop rounds fs' (dir cur) (base cur ∷ trailing)
      ≡ eval_symlinks_loop rounds fs (dir cur) (base cur ∷ trailing)
    → eval_symlinks_loop (suc rounds) fs' cur trailing
      ≡ eval_symlinks_loop (suc rounds) fs cur trailing
unfolding eval_symlinks_loop
round_shape rounds fs fs' cur trailing (ok l) e e' q = rw (e' ∙ e, e, eval_symlinks_loop)
round_shape rounds fs fs' cur trailing (err enoent) e e' q = rw (e' ∙ e, e, eval_symlinks_loop, q)
round_shape rounds fs fs' cur trailing (err _) e e' q = rw (e' ∙ e, e, eval_symlinks_loop)

eval_symlinks_loop-shape :
    (rounds : ℕ) (fs fs' : Fs) (cur : Bytes) (trailing : List Bytes)
    → SameShape fs fs'
    → eval_symlinks_loop rounds fs' cur trailing ≡ eval_symlinks_loop rounds fs cur trailing
unfolding eval_symlinks_loop
eval_symlinks_loop-shape zero fs fs' cur trailing same = refl
eval_symlinks_loop-shape (suc rounds) fs fs' cur trailing same =
    round_shape rounds fs fs' cur trailing (eval_links fs cur) refl
      (eval_links-shape fs fs' cur same)
      (eval_symlinks_loop-shape rounds fs fs' (dir cur) (base cur ∷ trailing) same)

check_links-shape :
    (r : Resolver) (fs fs' : Fs) (abs : Bytes)
    → SameShape fs fs'
    → check_links r fs' abs ≡ check_links r fs abs
unfolding check_links eval_symlinks
check_links-shape r fs fs' abs same =
    rw (eval_symlinks_loop-shape (suc (length abs)) fs fs' abs [] same) refl

pub resolve-shape :
    (r : Resolver) (fs fs' : Fs) (p : Bytes) → SameShape fs fs' → resolve r fs' p ≡ resolve r fs p
unfolding resolve
resolve-shape r fs fs' p same = rw (check_links-shape r fs fs' _ same) refl
