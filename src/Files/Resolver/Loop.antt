-- ===== src/Files/Resolver/Loop.antt =====
-- What `evalSymlinks` returns, and that its rounds are enough.
use mathlib.Core.Path.{subst}
use mdtree.Prelude.{
  ℕ, zero, suc, Bytes, bytes_eq, ◌≡◌, ◌≢◌, ◌∙◌, sym, ap, inl, inr, refl, List, [], ◌∷◌, ◌++◌, arith,
  All, All-append, length, length-append, if◌then◌else◌,
}
use mdtree.Result.{Result, ok, err}
use mdtree.FilePath.{clean, dir, base}
use mdtree.FilePath.Split.{IsElem}
use mdtree.FilePath.Clean.{rooted}
use mdtree.FilePath.Dir.{dir-rooted, dir-top, base-rooted}
use mdtree.Fs.Node.{enoent, enotdir, eisdir, eexist, enotempty, einval, eloop, eio, Loc, Fs, walk}
use mdtree.Fs.Reads.{IoResult}
use mdtree.Files.Error.{Error, not_found}
use mdtree.Files.Resolver.{go_links, eval_links, rejoin, eval_symlinks_loop}
use mdtree.Files.Resolver.Within.{All-left, All-right, rooted-injective}
use mdtree.Files.Resolver.Links.{
  snoc_cases, to_path, eval_links-rooted, Nearest, found_here, found_above,
}

-- One round, by the result of the walk.
abbrev pub loop_round : ℕ → Fs → List Bytes → List Bytes → IoResult Bytes → Result Error Bytes
loop_round rounds fs es trailing (ok resolved) = ok (clean (rejoin resolved trailing))
loop_round rounds fs es trailing (err enoent) =
    if bytes_eq (dir (rooted es)) (rooted es)
    then err not_found
    else eval_symlinks_loop rounds fs (dir (rooted es)) (base (rooted es) ∷ trailing)
loop_round rounds fs es trailing (err _) = err not_found

pub loop-loop_round :
    (rounds : ℕ) (fs : Fs) (es trailing : List Bytes) (w : IoResult Bytes)
    → eval_links fs (rooted es) ≡ w
    → eval_symlinks_loop (suc rounds) fs (rooted es) trailing ≡ loop_round rounds fs es trailing w
unfolding eval_symlinks_loop
loop-loop_round rounds fs es trailing (ok l) e = rw (e, eval_symlinks_loop)
loop-loop_round rounds fs es trailing (err enoent) e = rw (e, eval_symlinks_loop)
loop-loop_round rounds fs es trailing (err _) e = rw (e, eval_symlinks_loop)

pub longer_differs :
    (es : List Bytes) (e : Bytes) → All IsElem es → IsElem e → rooted es ≢ rooted (es ++ (e ∷ []))
longer_differs es e h k p =
    let same =
      ap length
        (rooted-injective es (es ++ (e ∷ [])) h (All-append IsElem es (e ∷ []) h (k, tt)) p) in
    absurd (omega (arith, same, length-append es (e ∷ [])))

-- A missing path sends the loop to its parent.
pub round_above :
    (rounds : ℕ) (fs : Fs) (es trailing : List Bytes) (e : Bytes)
    → All IsElem es
    → IsElem e
    → loop_round rounds fs (es ++ (e ∷ [])) trailing (err enoent)
      ≡ eval_symlinks_loop rounds fs (rooted es) (e ∷ trailing)
round_above rounds fs es trailing e h k =
    rw (dir-rooted es e h k, base-rooted es e k) (ground (arith, longer_differs es e h k))

-- The top directory ends it.
pub round_top :
    (rounds : ℕ) (fs : Fs) (trailing : List Bytes)
    → loop_round rounds fs [] trailing (err enoent) ≡ err not_found
round_top rounds fs trailing = rw dir-top (ground arith)

Nearest-above :
    (rounds : ℕ) (fs : Fs) (init : List Bytes) (x : Bytes) (trailing : List Bytes) (p : Bytes)
    → ((trailing' : List Bytes)
        → All IsElem init
        → All IsElem trailing'
        → eval_symlinks_loop rounds fs (rooted init) trailing' ≡ ok p
        → Nearest fs init trailing' p)
    → All IsElem (init ++ (x ∷ []))
    → All IsElem trailing
    → walk go_links fs [] (init ++ (x ∷ [])) ≡ err enoent
    → loop_round rounds fs (init ++ (x ∷ [])) trailing (err enoent) ≡ ok p
    → Nearest fs (init ++ (x ∷ [])) trailing p
Nearest-above rounds fs init x trailing p ih h k q e =
    let hi = All-left IsElem init (x ∷ []) h in
    let hx = (All-right IsElem init (x ∷ []) h).0 in
    found_above fs init x trailing p q
      (ih (x ∷ trailing) hi (hx, k) (sym (round_above rounds fs init trailing x hi hx) ∙ e))

Nearest-missing :
    (rounds : ℕ) (fs : Fs) (es trailing : List Bytes) (p : Bytes)
    → ((init trailing' : List Bytes)
        → All IsElem init
        → All IsElem trailing'
        → eval_symlinks_loop rounds fs (rooted init) trailing' ≡ ok p
        → Nearest fs init trailing' p)
    → All IsElem es
    → All IsElem trailing
    → walk go_links fs [] es ≡ err enoent
    → loop_round rounds fs es trailing (err enoent) ≡ ok p
    → Nearest fs es trailing p
Nearest-missing rounds fs es trailing p ih h k q e = elim (snoc_cases es) [
  | inl empty ↦ cc (
    round_top rounds fs trailing,
    subst (λ y. loop_round rounds fs y trailing (err enoent) ≡ ok p) empty e,
  )
  | inr (init, x, eq) ↦
      subst (λ y. Nearest fs y trailing p) (sym eq)
        (Nearest-above rounds fs init x trailing p (ih init) (subst (All IsElem) eq h) k
          (subst (λ y. walk go_links fs [] y ≡ err enoent) eq q)
          (subst (λ y. loop_round rounds fs y trailing (err enoent) ≡ ok p) eq e))
]

-- What the loop returns is the nearest ancestor's location and the names behind it.
pub loop-Nearest :
    (rounds : ℕ) (fs : Fs) (es trailing : List Bytes) (p : Bytes)
    → All IsElem es
    → All IsElem trailing
    → eval_symlinks_loop rounds fs (rooted es) trailing ≡ ok p
    → Nearest fs es trailing p
loop-Nearest zero fs es trailing p h k e = absurd (no_rounds e)
  where
    no_rounds : eval_symlinks_loop zero fs (rooted es) trailing ≡ ok p → ⊥
    no_rounds q = unfold eval_symlinks_loop in cc
loop-Nearest (suc rounds) fs es trailing p h k e =
    by_walk (loop-Nearest rounds fs) (walk go_links fs [] es) refl
  where
    step :
        (w : IoResult Loc)
        → walk go_links fs [] es ≡ w
        → loop_round rounds fs es trailing (to_path w) ≡ ok p
    step w q =
        sym (
          loop-loop_round rounds fs es trailing (to_path w)
            (eval_links-rooted fs es h ∙ ap to_path q))
        ∙ e

    by_walk :
        ((init trailing' : List Bytes) (p' : Bytes)
          → All IsElem init
          → All IsElem trailing'
          → eval_symlinks_loop rounds fs (rooted init) trailing' ≡ ok p'
          → Nearest fs init trailing' p')
        → (w : IoResult Loc) → walk go_links fs [] es ≡ w
        → Nearest fs es trailing p
    by_walk ih (ok l) q = found_here fs es trailing l p h k q (ground (arith, step (ok l) q))
    by_walk ih (err enoent) q =
        Nearest-missing rounds fs es trailing p (λ i t. ih i t p) h k q (step (err enoent) q)
    by_walk ih (err enotdir) q = cc (step (err enotdir) q)
    by_walk ih (err eisdir) q = cc (step (err eisdir) q)
    by_walk ih (err eexist) q = cc (step (err eexist) q)
    by_walk ih (err enotempty) q = cc (step (err enotempty) q)
    by_walk ih (err einval) q = cc (step (err einval) q)
    by_walk ih (err eloop) q = cc (step (err eloop) q)
    by_walk ih (err eio) q = cc (step (err eio) q)
