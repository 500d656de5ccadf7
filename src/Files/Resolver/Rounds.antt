-- ===== src/Files/Resolver/Rounds.antt =====
-- The loop of `evalSymlinks` ends within the rounds that it is given.
use mathlib.Core.Path.{subst}
use mdtree.Prelude.{
  ℕ, zero, suc, ◌≤◌, Bytes, ◌≡◌, ◌≢◌, ◌⊎◌, ◌∙◌, sym, ap, inl, inr, refl, List, [], ◌∷◌, ◌++◌, arith,
  All, length, length-append,
}
use mdtree.Result.{Result, ok, err}
use mdtree.FilePath.{slash, join_slash, clean, dir, base}
use mdtree.FilePath.Split.{IsElem}
use mdtree.FilePath.Clean.{rooted}
use mdtree.FilePath.Dir.{dir-rooted, dir-top, base-rooted}
use mdtree.Fs.Node.{Errno, enoent, Fs}
use mdtree.Fs.Reads.{IoResult}
use mdtree.Files.Error.{Error, not_found}
use mdtree.Files.Resolver.{eval_links, rejoin, eval_symlinks_loop, eval_symlinks}
use mdtree.Files.Resolver.Within.{All-left, All-right}
use mdtree.Files.Resolver.Loop.{loop_round, loop-loop_round, longer_differs, round_above, round_top}
use mdtree.Files.Resolver.Links.{snoc_cases}

-- A run of the loop that ends, with what it returns. No number of rounds is given: a loop that runs
-- on for ever has none.
pub data Run (fs : Fs) : Bytes → List Bytes → Result Error Bytes → Type 0 where
  found :
      (cur : Bytes) (trailing : List Bytes) (resolved : Bytes)
      → eval_links fs cur ≡ ok resolved
      → Run fs cur trailing (ok (clean (rejoin resolved trailing)))
  refused :
      (cur : Bytes) (trailing : List Bytes) (e : Errno)
      → eval_links fs cur ≡ err e
      → e ≢ enoent
      → Run fs cur trailing (err not_found)
  at_top :
      (cur : Bytes) (trailing : List Bytes)
      → eval_links fs cur ≡ err enoent
      → dir cur ≡ cur
      → Run fs cur trailing (err not_found)
  goes_up :
      (cur : Bytes) (trailing : List Bytes) (r : Result Error Bytes)
      → eval_links fs cur ≡ err enoent
      → dir cur ≢ cur
      → Run fs (dir cur) (base cur ∷ trailing) r
      → Run fs cur trailing r

missing? : (e : Errno) → (e ≡ enoent) ⊎ (e ≢ enoent)
missing? enoent = inl refl
missing? _ = inr (λ q. cc)

round_refused :
    (rounds : ℕ) (fs : Fs) (es trailing : List Bytes) (e : Errno)
    → e ≢ enoent
    → loop_round rounds fs es trailing (err e) ≡ err not_found
round_refused rounds fs es trailing enoent n = absurd (n refl)
round_refused rounds fs es trailing _ n = refl

module _ (rounds : ℕ) (fs : Fs) (es trailing : List Bytes) (h : All IsElem es)
    (ih : (init : List Bytes) (x : Bytes)
      → es ≡ init ++ (x ∷ [])
      → Run fs
          (rooted init)
          (x ∷ trailing)
          (eval_symlinks_loop rounds fs (rooted init) (x ∷ trailing))) where
  above-Run :
      (init : List Bytes) (x : Bytes)
      → es ≡ init ++ (x ∷ [])
      → eval_links fs (rooted es) ≡ err enoent
      → Run fs (rooted es) trailing (loop_round rounds fs es trailing (err enoent))
  above-Run init x eq q =
      let h' = subst (All IsElem) eq h in
      let hi = All-left IsElem init (x ∷ []) h' in
      let hx = (All-right IsElem init (x ∷ []) h').0 in
      let up = ap (λ y. dir (rooted y)) eq ∙ dir-rooted init x hi hx in
      let last = ap (λ y. base (rooted y)) eq ∙ base-rooted init x hx in
      let differs = λ (e : dir (rooted es) ≡ rooted es).
        longer_differs init x hi hx (sym up ∙ e ∙ ap rooted eq) in
      let result : Result Error Bytes = loop_round rounds fs es trailing (err enoent) in
      let same =
        ap (λ y. loop_round rounds fs y trailing (err enoent)) eq
        ∙ round_above rounds fs init trailing x hi hx in
      goes_up (rooted es) trailing result q differs (
        subst (λ y. Run fs y (base (rooted es) ∷ trailing) result) (sym up)
          (subst (λ y. Run fs (rooted init) (y ∷ trailing) result) (sym last)
            (subst (Run fs (rooted init) (x ∷ trailing)) (sym same) (ih init x eq))))

  missing-Run :
      eval_links fs (rooted es) ≡ err enoent
      → Run fs (rooted es) trailing (loop_round rounds fs es trailing (err enoent))
  missing-Run q = elim (snoc_cases es) [
    | inr (init, x, eq) ↦ above-Run init x eq q
    | inl empty ↦
        subst (Run fs (rooted es) trailing)
          (sym (
            ap (λ y. loop_round rounds fs y trailing (err enoent)) empty
            ∙ round_top rounds fs trailing))
          (at_top (rooted es) trailing q
            (subst (λ y. dir (rooted y) ≡ rooted y) (sym empty) dir-top))
  ]

  round-Run :
      (r : IoResult Bytes)
      → eval_links fs (rooted es) ≡ r
      → Run fs (rooted es) trailing (loop_round rounds fs es trailing r)
  round-Run (ok resolved) q = found (rooted es) trailing resolved q
  round-Run (err e) q = elim (missing? e) [
    | inl p ↦
        subst (λ y. Run fs (rooted es) trailing (loop_round rounds fs es trailing (err y))) (sym p)
          (missing-Run (q ∙ ap err p))
    | inr n ↦
        subst (Run fs (rooted es) trailing) (sym (round_refused rounds fs es trailing e n))
          (refused (rooted es) trailing e q n)
  ]

  loop-Run : Run fs (rooted es) trailing (eval_symlinks_loop (suc rounds) fs (rooted es) trailing)
  loop-Run =
      subst (Run fs (rooted es) trailing)
        (sym (loop-loop_round rounds fs es trailing (eval_links fs (rooted es)) refl))
        (round-Run (eval_links fs (rooted es)) refl)

-- The loop on a number of rounds is a run, if the rounds are enough.
rounds-Run :
    (rounds : ℕ) (fs : Fs) (es trailing : List Bytes)
    → All IsElem es
    → length es ≤ rounds
    → Run fs (rooted es) trailing (eval_symlinks_loop (suc rounds) fs (rooted es) trailing)
rounds-Run zero fs es trailing h p =
    loop-Run zero fs es trailing h
      (λ init x eq. absurd (omega (arith, ap length eq, length-append init (x ∷ []))))
rounds-Run (suc rounds) fs es trailing h p = loop-Run (suc rounds) fs es trailing h (λ init x eq.
    rounds-Run rounds fs init (x ∷ trailing)
      (All-left IsElem init (x ∷ []) (subst (All IsElem) eq h))
      (omega (arith, ap length eq, length-append init (x ∷ []))))

length-join_slash : (es : List Bytes) → All IsElem es → length es ≤ length (join_slash es)
unfolding join_slash
length-join_slash [] h = omega arith
length-join_slash ([] ∷ es) h = absurd (h.0.0 refl)
length-join_slash ((c ∷ e) ∷ []) h = omega arith
length-join_slash ((c ∷ e) ∷ f ∷ es) h =
    omega (arith, length-append e (slash ∷ join_slash (f ∷ es)), length-join_slash (f ∷ es) h.1)

-- For a clean absolute path the loop ends, and `evalSymlinks` returns what the run that ends does.
pub eval_symlinks-Run :
    (fs : Fs) (es : List Bytes)
    → All IsElem es
    → Run fs (rooted es) [] (eval_symlinks fs (rooted es))
unfolding eval_symlinks
eval_symlinks-Run fs es h =
    rounds-Run (length (rooted es)) fs es [] h (omega (arith, length-join_slash es h))
