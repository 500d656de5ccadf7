-- ===== src/Files/Resolver/Confined.antt =====
-- What `Resolve` guarantees about the path that it returns.
use mathlib.Core.List.{append-nil}
use mathlib.Core.Path.{subst}
use mdtree.Prelude.{
  suc, length, Bytes, ◌≡◌, ◌⊎◌, inl, inr, ap, ◌∙◌, refl, Bool, true, false, List, [], ◌++◌, arith,
  All, All-append, Bool-cases, if◌then◌else◌,
}
use mdtree.Result.{Result, ok, err}
use mdtree.FilePath.{slash, join_slash, is_abs, clean, join}
use mdtree.FilePath.Split.{IsElem}
use mdtree.FilePath.Clean.{rooted, parts, parts-IsElem, clean-eq-rooted, is_abs-clean}
use mdtree.FilePath.Join.{join-cons}
use mdtree.Fs.Node.{Fs, Loc, walk}
use mdtree.Files.Error.{Error}
use mdtree.Files.Resolver.{
  Resolver, new_resolver, go_links, within, eval_symlinks, absolute, check_links, resolve,
}
use mdtree.Files.Resolver.Within.{Under, within-Under, All-right}
use mdtree.Files.Resolver.Links.{IsMissing, Nearest}
use mdtree.Files.Resolver.Loop.{loop-Nearest}

-- The path, followed through its symbolic links as far as it exists, stays below the root: `anc`
-- is its longest part that exists, at location `l`, and `rest` are the names that are missing.
pub record StaysBelow (fs : Fs) (rs es : List Bytes) : Type 0 where
  pub anc : List Bytes
  pub rest : List Bytes
  pub l : Loc
  pub split : es ≡ anc ++ rest
  pub reached : walk go_links fs [] anc ≡ ok l
  pub missing : IsMissing fs anc rest
  pub inside : Under rs (l ++ rest)

-- A path that is clean, absolute, made of plain names, and below the root by these.
pub record IsConfined (rs : List Bytes) (abs : Bytes) : Type 0 where
  pub names : List Bytes
  pub path : abs ≡ rooted names
  pub plain : All IsElem names
  pub under : Under rs names

is_abs-join : (rs : List Bytes) (p : Bytes) → is_abs (join (rooted rs) p) ≡ true
is_abs-join rs p = rw (join-cons slash (join_slash rs) p) (is_abs-clean _ (unfold is_abs in refl))

-- The made-absolute path is clean, whatever the input.
absolute-rooted :
    (r : Resolver) (rs : List Bytes) (p : Bytes)
    → r.root ≡ rooted rs
    → (es : List Bytes) × (absolute r p ≡ rooted es) × All IsElem es
unfolding absolute
absolute-rooted r rs p root =
    let q : Bytes = if is_abs p then p else join r.root p in
    (parts q, clean-eq-rooted q (starts (Bool-cases (is_abs p))), parts-IsElem q)
  where
    starts :
        (is_abs p ≡ true) ⊎ (is_abs p ≡ false)
        → is_abs (if is_abs p then p else join r.root p) ≡ true
    starts (inl e) = rw e e
    starts (inr e) = rw (e, root) (is_abs-join rs p)

links_parts :
    (r : Resolver) (fs : Fs) (abs : Bytes)
    → check_links r fs abs ≡ ok tt
    → r.follow_symlinks ≡ false
    → (p : Bytes) × (eval_symlinks fs abs ≡ ok p) × (within r p ≡ true)
unfolding check_links
links_parts r fs abs e off = by_result (eval_symlinks fs abs) refl
  where
    by_result :
        (x : Result Error Bytes)
        → eval_symlinks fs abs ≡ x
        → (p : Bytes) × (eval_symlinks fs abs ≡ ok p) × (within r p ≡ true)
    by_result (ok p) q = (p, q, ground arith)
    by_result (err c) q = absurd (ground arith)

Nearest-StaysBelow :
    (r : Resolver) (fs : Fs) (rs es : List Bytes) (p : Bytes)
    → r.root ≡ rooted rs
    → All IsElem rs
    → All IsElem es
    → Nearest fs es [] p
    → within r p ≡ true
    → StaysBelow fs rs es
Nearest-StaysBelow r fs rs es p root h k n w =
    let rest_plain = All-right IsElem n.anc n.rest (subst (All IsElem) n.split k) in
    let path = n.path ∙ ap (λ x. rooted (n.l ++ x)) (append-nil n.rest) in
    record {
      anc = n.anc;
      rest = n.rest;
      l = n.l;
      split = n.split;
      reached = n.reached;
      missing = n.missing;
      inside =
          within-Under r rs (n.l ++ n.rest) root h (All-append IsElem n.l n.rest n.plain rest_plain)
            (subst (λ x. within r x ≡ true) path w);
    }

eval_symlinks-Nearest :
    (fs : Fs) (es : List Bytes) (p : Bytes)
    → All IsElem es
    → eval_symlinks fs (rooted es) ≡ ok p
    → Nearest fs es [] p
unfolding eval_symlinks
eval_symlinks-Nearest fs es p k e = loop-Nearest (suc (length (rooted es))) fs es [] p k tt e

resolve_parts :
    (r : Resolver) (fs : Fs) (p abs : Bytes)
    → resolve r fs p ≡ ok abs
    → (abs ≡ absolute r p) × (within r abs ≡ true) × (check_links r fs abs ≡ ok tt)
unfolding resolve
resolve_parts r fs p abs e = ground arith

-- The path made absolute, from the root's names.
record Accepted (r : Resolver) (fs : Fs) (rs : List Bytes) (abs : Bytes) : Type 0 where
  names : List Bytes
  path : abs ≡ rooted names
  plain : All IsElem names
  inside : within r (rooted names) ≡ true
  checked : check_links r fs (rooted names) ≡ ok tt

resolve-Accepted :
    (r : Resolver) (rs : List Bytes) (fs : Fs) (p abs : Bytes)
    → r.root ≡ rooted rs
    → resolve r fs p ≡ ok abs
    → Accepted r fs rs abs
resolve-Accepted r rs fs p abs root e =
    let (same, w, c) = resolve_parts r fs p abs e in
    let (es, path, plain) = absolute-rooted r rs p root in
    record {
      names = es;
      path = same ∙ path;
      plain = plain;
      inside = subst (λ x. within r x ≡ true) (same ∙ path) w;
      checked = subst (λ x. check_links r fs x ≡ ok tt) (same ∙ path) c;
    }

-- A resolved path is clean, absolute and below the root by its names, for any input, any file
-- system and any absolute root, whether links are followed or not.
pub resolve-IsConfined :
    (root : Bytes) (follow : Bool) (fs : Fs) (p abs : Bytes)
    → is_abs root ≡ true
    → resolve (new_resolver root follow) fs p ≡ ok abs
    → IsConfined (parts root) abs
unfolding new_resolver
resolve-IsConfined root follow fs p abs a e =
    let r : Resolver = record { root = clean root; follow_symlinks = follow } in
    let at_root = clean-eq-rooted root a in
    let k = resolve-Accepted r (parts root) fs p abs at_root e in
    record {
      names = k.names;
      path = k.path;
      plain = k.plain;
      under = within-Under r (parts root) k.names at_root (parts-IsElem root) k.plain k.inside;
    }

-- Where links are not to be followed out of the root, a resolved path, followed through its links
-- as far as it exists, still leads to a location below the root, missing names included.
pub resolve-StaysBelow :
    (root : Bytes) (fs : Fs) (p abs : Bytes)
    → is_abs root ≡ true
    → resolve (new_resolver root false) fs p ≡ ok abs
    → (names : List Bytes) × (abs ≡ rooted names) × StaysBelow fs (parts root) names
unfolding new_resolver
resolve-StaysBelow root fs p abs a e =
    let r : Resolver = record { root = clean root; follow_symlinks = false } in
    let at_root = clean-eq-rooted root a in
    let k = resolve-Accepted r (parts root) fs p abs at_root e in
    let (q, found, inside) = links_parts r fs (rooted k.names) k.checked refl in
    (
      k.names,
      k.path,
      Nearest-StaysBelow r fs (parts root) k.names q at_root (parts-IsElem root) k.plain
          (eval_symlinks-Nearest fs k.names q k.plain found) inside,
    )
