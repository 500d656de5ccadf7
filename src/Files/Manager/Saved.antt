-- ===== src/Files/Manager/Saved.antt =====
-- What `Save` has done when it succeeds.
use mathlib.Core.Logic.{ite}
use mathlib.Core.Path.{subst}
use mdtree.Prelude.{Bytes, ◌≡◌, ◌≢◌, sym, ap, ◌∙◌, Bool, true, some, none, arith, length, leb, All}
use mdtree.Result.{ok}
use mdtree.Text.{CaseTable}
use mdtree.FilePath.{elems, is_abs}
use mdtree.FilePath.Clean.{parts, elems-rooted}
use mdtree.FilePath.Split.{IsElem}
use mdtree.Fs.Node.{Node, file, Loc, loc_discrete, Fs, node_at}
use mdtree.Fs.Reads.{stat, locate}
use mdtree.Fs.Last.{locate_elems-stat_elems}
use mdtree.Files.Op.{gets, ◌>>=◌}
use mdtree.Files.Op.Inversion.{gets-eq-ok, require-eq-ok, call-eq-ok, or_not_found-eq-ok}
use mdtree.Files.Markdown.{is_markdown}
use mdtree.Files.Resolver.{Resolver, new_resolver, resolve}
use mdtree.Files.Resolver.Confined.{IsConfined, resolve-IsConfined}
use mdtree.Files.Manager.{FileInfo, max_file_size, save, resolve_path, info_of, write_file_atomic}
use mdtree.Files.Manager.Atomic.{
  write_file_atomic-ok, write_file_atomic-located, write_file_atomic-apart,
}

pub info_of-kept : (abs : Bytes) (fs : Fs) → (info_of abs fs).1 ≡ fs
unfolding info_of gets ◌>>=◌
info_of-kept abs fs = ground arith

-- A path whose file can be looked at is not the temporary file's.
stat-apart :
    (root : Bytes) (fs : Fs) (abs : Bytes) (t : Loc) (n : Node)
    → IsConfined (parts root) abs
    → stat fs abs ≡ ok n
    → locate fs abs ≡ ok t
    → node_at fs t ≢ none
unfolding stat locate
stat-apart root fs abs t n k q r =
    locate_elems-stat_elems fs (elems abs) t n
      (subst (All IsElem) (sym (ap elems k.path ∙ elems-rooted k.names k.plain)) k.plain) r q

-- What `Save` found out and did.
pub record Saved (u : CaseTable) (r : Resolver) (path content : Bytes) (fs fs' : Fs) : Type 0 where
  pub abs : Bytes
  pub t : Loc
  pub resolved : resolve r fs path ≡ ok abs
  pub markdown : is_markdown u abs ≡ true
  pub bounded : leb (length content) max_file_size ≡ true
  pub there : locate fs abs ≡ ok t
  pub nodes :
      (k : Loc) → node_at fs' k ≡ ite (loc_discrete k t) (some (file content fs.now)) (node_at fs k)

-- Where saving succeeds, below an absolute root, the path resolved to a markdown name, the content
-- is within the limit, the location of the path holds a file with that content, and every other
-- location holds what it held before.
pub save-Saved :
    (u : CaseTable) (root : Bytes) (follow : Bool) (path content : Bytes) (fs : Fs)
    (info : FileInfo)
    → is_abs root ≡ true
    → (save u (new_resolver root follow) path content fs).0 ≡ ok info
    → Saved u
        (new_resolver root follow)
        path
        content
        fs
        (save u (new_resolver root follow) path content fs).1
unfolding save resolve_path
save-Saved u root follow path content fs info a q =
    let (abs, resolved, q₁, e₁) = gets-eq-ok _ _ fs info q in
    let (md, q₂, e₂) = require-eq-ok _ _ _ fs info q₁ in
    let (small, q₃, e₃) = require-eq-ok _ _ _ fs info q₂ in
    let (n, looked, q₄, e₄) = gets-eq-ok _ _ fs info q₃ in
    let (_, q₅, e₅) = require-eq-ok _ _ _ fs info q₄ in
    let (_, w, q₆, e₆) = call-eq-ok _ _ fs info q₅ in
    let (t, there) = write_file_atomic-located abs content fs w in
    let taken =
      stat-apart root fs abs t n (resolve-IsConfined root follow fs path abs a resolved)
        (or_not_found-eq-ok (stat fs abs) n looked) there in
    let whole = e₁ ∙ e₂ ∙ e₃ ∙ e₄ ∙ e₅ ∙ e₆ in
    record {
      abs = abs;
      t = t;
      resolved = resolved;
      markdown = md;
      bounded = small;
      there = there;
      nodes = λ k.
          ap (λ x. node_at x.1 k) whole
          ∙ ap (λ x. node_at x k) (info_of-kept abs (write_file_atomic abs content fs).1)
          ∙ write_file_atomic-ok abs content fs t k there
              (write_file_atomic-apart abs content fs t taken w) w;
    }
