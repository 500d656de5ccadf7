-- ===== src/Files/Manager/Directory.antt =====
-- What `Mkdir` has done when it succeeds.
use mathlib.Core.Path.{subst}
use mdtree.Prelude.{ℕ, Bytes, Bool, true, ◌≡◌, sym, ap, ◌∙◌, All}
use mdtree.Result.{ok, err}
use mdtree.FilePath.{elems, is_abs}
use mdtree.FilePath.Clean.{elems-rooted}
use mdtree.FilePath.Split.{IsElem}
use mdtree.Fs.Node.{enoent, dir, Loc, Fs, node_at}
use mdtree.Fs.Reads.{stat}
use mdtree.Fs.Grown.{IsGrown, mkdir_all-Grown}
use mdtree.Fs.Ready.{mkdir_all-stat}
use mdtree.Files.Op.Inversion.{gets-eq-ok, check-eq-ok, last_call-eq-ok}
use mdtree.Files.Resolver.{Resolver, new_resolver, resolve}
use mdtree.Files.Resolver.Confined.{resolve-IsConfined}
use mdtree.Files.Manager.{mkdir}
use mdtree.Files.Manager.Created.{missed}

-- Nothing could be looked at under the path, and now it leads to a directory. All that is new is
-- directories.
pub record NewDir (r : Resolver) (path : Bytes) (fs fs' : Fs) : Type 0 where
  pub abs : Bytes
  pub time : ℕ
  pub resolved : resolve r fs path ≡ ok abs
  pub missing : stat fs abs ≡ err enoent
  pub there : stat fs' abs ≡ ok (dir time)
  pub nodes : (k : Loc) → IsGrown fs.now (node_at fs k) (node_at fs' k)

-- Where making a directory succeeds, below an absolute root, nothing could be looked at under the
-- resolved path before, it leads to a directory now, and every location holds what it held before
-- or, where nothing was, a new directory.
pub mkdir-NewDir :
    (root : Bytes) (follow : Bool) (path : Bytes) (fs : Fs)
    → is_abs root ≡ true
    → (mkdir (new_resolver root follow) path fs).0 ≡ ok tt
    → NewDir (new_resolver root follow) path fs (mkdir (new_resolver root follow) path fs).1
unfolding mkdir
mkdir-NewDir root follow path fs a q =
    let (abs, resolved, q₁, e₁) = gets-eq-ok _ _ fs tt q in
    let (u₀, free, q₂, e₂) = check-eq-ok _ _ fs tt q₁ in
    let (done, e₃) = last_call-eq-ok _ fs tt q₂ in
    let k = resolve-IsConfined root follow fs path abs a resolved in
    let plain = subst (All IsElem) (sym (ap elems k.path ∙ elems-rooted k.names k.plain)) k.plain in
    let (time, there) = mkdir_all-stat abs fs plain done in
    let whole = ap (λ x. x.1) (e₁ ∙ e₂) ∙ e₃ in
    subst (NewDir (new_resolver root follow) path fs) (sym whole) (record {
      abs = abs;
      time = time;
      resolved = resolved;
      missing = missed (stat fs abs) u₀ free;
      there = there;
      nodes = (mkdir_all-Grown abs fs).nodes;
    })
