-- ===== src/Files/Resolver/Links.antt =====
-- The loop `evalSymlinks`: the nearest ancestor that exists, evaluated, and the names behind it.
use mathlib.Core.List.{append_assoc, append-nil}
use mdtree.Prelude.{
  Bytes, ◌≡◌, ◌∙◌, sym, ap, ◌⊎◌, inl, inr, refl, List, [], ◌∷◌, ◌++◌, All, All-append,
}
use mdtree.Result.{ok, err, ◌>>=◌}
use mdtree.FilePath.{clean, elems}
use mdtree.FilePath.Split.{IsElem}
use mdtree.FilePath.Clean.{rooted, clean-rooted, elems-rooted, All-NoSlash}
use mdtree.FilePath.Join.{join-rooted}
use mdtree.Fs.Node.{enoent, Loc, Fs, walk}
use mdtree.Fs.Walk.{walk-IsElem}
use mdtree.Fs.Reads.{IoResult}
use mdtree.Files.Resolver.{go_links, eval_links, rejoin}

-- An element list is empty or ends in a last element.
pub snoc_cases :
    (es : List Bytes) → (es ≡ []) ⊎ ((init : List Bytes) × (e : Bytes) × (es ≡ init ++ (e ∷ [])))
snoc_cases [] = inl refl
snoc_cases (e ∷ es) = elim (snoc_cases es) [
  | inl empty ↦ inr ([], e, ap (◌∷◌ e) empty)
  | inr (init, f, p) ↦ inr (e ∷ init, f, ap (◌∷◌ e) p)
]

rejoin-rooted :
    (l trailing : List Bytes)
    → All IsElem l
    → All IsElem trailing
    → rejoin (rooted l) trailing ≡ rooted (l ++ trailing)
unfolding rejoin
rejoin-rooted l [] h k = ap rooted (sym (append-nil l))
rejoin-rooted l (t ∷ trailing) h k =
    ap (λ x. rejoin x trailing) (join-rooted l t h k.0)
    ∙ rejoin-rooted (l ++ (t ∷ [])) trailing (All-append IsElem l (t ∷ []) h (k.0, tt)) k.1
    ∙ ap rooted (append_assoc l (t ∷ []) trailing)

abbrev pub to_path : IoResult Loc → IoResult Bytes
to_path (ok l) = ok (rooted l)
to_path (err e) = err e

eval_links-walk : (fs : Fs) (p : Bytes) → eval_links fs p ≡ to_path (walk go_links fs [] (elems p))
unfolding eval_links
eval_links-walk fs p = by_cases (walk go_links fs [] (elems p))
  where
    by_cases : (r : IoResult Loc) → (r >>= λ l. ok (rooted l)) ≡ to_path r
    by_cases (ok l) = refl
    by_cases (err e) = refl

pub eval_links-rooted :
    (fs : Fs) (es : List Bytes)
    → All IsElem es
    → eval_links fs (rooted es) ≡ to_path (walk go_links fs [] es)
eval_links-rooted fs es h =
    eval_links-walk fs (rooted es) ∙ ap (λ x. to_path (walk go_links fs [] x)) (elems-rooted es h)

-- The names behind the nearest ancestor are those from the first that is missing.
abbrev pub IsMissing : Fs → List Bytes → List Bytes → Type 0
IsMissing fs anc [] = Unit
IsMissing fs anc (f ∷ rest) = walk go_links fs [] (anc ++ (f ∷ [])) ≡ err enoent

-- What the loop finds: an ancestor `anc` of the path, its location `l`, and the names `rest`.
pub record Nearest (fs : Fs) (es : List Bytes) (trailing : List Bytes) (p : Bytes) : Type 0 where
  pub anc : List Bytes
  pub rest : List Bytes
  pub l : Loc
  pub split : es ≡ anc ++ rest
  pub reached : walk go_links fs [] anc ≡ ok l
  pub missing : IsMissing fs anc rest
  pub path : p ≡ rooted (l ++ (rest ++ trailing))
  pub plain : All IsElem l

pub found_here :
    (fs : Fs) (es trailing : List Bytes) (l : Loc) (p : Bytes)
    → All IsElem es
    → All IsElem trailing
    → walk go_links fs [] es ≡ ok l
    → clean (rejoin (rooted l) trailing) ≡ p
    → Nearest fs es trailing p
found_here fs es trailing l p h k w e =
    let plain = walk-IsElem go_links fs [] es l tt (All-NoSlash es h) w in
    record {
      anc = es;
      rest = [];
      l = l;
      split = sym (append-nil es);
      reached = w;
      missing = tt;
      path =
          sym e
          ∙ ap clean (rejoin-rooted l trailing plain k)
          ∙ clean-rooted (l ++ trailing) (All-append IsElem l trailing plain k);
      plain = plain;
    }

IsMissing-last :
    (fs : Fs) (anc rest : List Bytes) (e : Bytes)
    → walk go_links fs [] ((anc ++ rest) ++ (e ∷ [])) ≡ err enoent
    → IsMissing fs anc rest
    → IsMissing fs anc (rest ++ (e ∷ []))
IsMissing-last fs anc [] e w m = rw (append-nil anc) at w
IsMissing-last fs anc (f ∷ rest) e w m = m

pub found_above :
    (fs : Fs) (init : List Bytes) (e : Bytes) (trailing : List Bytes) (p : Bytes)
    → walk go_links fs [] (init ++ (e ∷ [])) ≡ err enoent
    → Nearest fs init (e ∷ trailing) p
    → Nearest fs (init ++ (e ∷ [])) trailing p
found_above fs init e trailing p w n = record {
  anc = n.anc;
  rest = n.rest ++ (e ∷ []);
  l = n.l;
  split = ap (λ x. x ++ (e ∷ [])) n.split ∙ append_assoc n.anc n.rest (e ∷ []);
  reached = n.reached;
  missing = IsMissing-last fs n.anc n.rest e (rw n.split at w) n.missing;
  path = n.path ∙ ap (λ x. rooted (n.l ++ x)) (sym (append_assoc n.rest (e ∷ []) trailing));
  plain = n.plain;
}
