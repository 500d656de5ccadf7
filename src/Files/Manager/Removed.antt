-- ===== src/Files/Manager/Removed.antt =====
-- What `Delete` and `DeleteDir` have done when they succeed.
use mathlib.Core.Logic.{ite}
use mdtree.Prelude.{Bytes, ◌≡◌, ◌≢◌, ap, ◌∙◌, Bool, true, false, not, none, arith}
use mdtree.Result.{ok}
use mdtree.Text.{CaseTable}
use mdtree.Fs.Node.{Node, Loc, loc_discrete, Fs, node_at}
use mdtree.Fs.Nodes.{node_at-delete}
use mdtree.Fs.Reads.{stat, locate}
use mdtree.Fs.Reads
use mdtree.Fs.Temp.{remove-eq-ok}
use mdtree.Files.Op.Inversion.{gets-eq-ok, require-eq-ok, last_call-eq-ok, or_not_found-eq-ok}
use mdtree.Files.Markdown.{is_markdown}
use mdtree.Files.Resolver.{Resolver, resolve}
use mdtree.Files.Manager.{delete, delete_dir, resolve_path}

-- The path led to a file or to a directory, and its one location is empty now.
pub record Removed (r : Resolver) (path : Bytes) (wants_dir : Bool) (fs fs' : Fs) : Type 0 where
  pub abs : Bytes
  pub t : Loc
  pub n : Node
  pub resolved : resolve r fs path ≡ ok abs
  pub looked : stat fs abs ≡ ok n
  pub kind : Reads.is_dir n ≡ wants_dir
  pub there : locate fs abs ≡ ok t
  pub nodes : (k : Loc) → node_at fs' k ≡ ite (loc_discrete k t) none (node_at fs k)

not-eq-true : (b : Bool) → not b ≡ true → b ≡ false
not-eq-true b h = ground arith

-- Where deleting a file succeeds, the path resolved to a markdown name and led to something that is
-- no directory, and exactly the node at its location is gone.
pub delete-Removed :
    (u : CaseTable) (r : Resolver) (path : Bytes) (fs : Fs)
    → (delete u r path fs).0 ≡ ok tt
    → (abs : Bytes) × (resolve r fs path ≡ ok abs)
      × (is_markdown u abs ≡ true)
      × Removed r path false fs (delete u r path fs).1
unfolding delete resolve_path
delete-Removed u r path fs q =
    let (abs, resolved, q₁, e₁) = gets-eq-ok _ _ fs tt q in
    let (md, q₂, e₂) = require-eq-ok _ _ _ fs tt q₁ in
    let (n, looked, q₃, e₃) = gets-eq-ok _ _ fs tt q₂ in
    let (is_file, q₄, e₄) = require-eq-ok _ _ _ fs tt q₃ in
    let (done, e₅) = last_call-eq-ok _ fs tt q₄ in
    let (t, there, below, gone) = remove-eq-ok abs fs done in
    (
      abs,
      resolved,
      md,
      record {
        abs = abs;
        t = t;
        n = n;
        resolved = resolved;
        looked = or_not_found-eq-ok (stat fs abs) n looked;
        kind = not-eq-true (Reads.is_dir n) is_file;
        there = there;
        nodes = λ k.
            ap (λ x. node_at x.1 k) (e₁ ∙ e₂ ∙ e₃ ∙ e₄)
            ∙ ap (λ x. node_at x k) (e₅ ∙ gone)
            ∙ node_at-delete t k fs below;
      },
    )

-- Where deleting a directory succeeds, the path did not resolve to the root, it led to a directory,
-- and exactly the node at its location is gone.
pub delete_dir-Removed :
    (r : Resolver) (path : Bytes) (fs : Fs)
    → (delete_dir r path fs).0 ≡ ok tt
    → (resolve r fs path ≢ ok r.root) × Removed r path true fs (delete_dir r path fs).1
unfolding delete_dir
delete_dir-Removed r path fs q =
    let (abs, resolved, q₁, e₁) = gets-eq-ok _ _ fs tt q in
    let (other, q₂, e₂) = require-eq-ok _ _ _ fs tt q₁ in
    let (n, looked, q₃, e₃) = gets-eq-ok _ _ fs tt q₂ in
    let (is_dir, q₄, e₄) = require-eq-ok _ _ _ fs tt q₃ in
    let (es, listed, q₅, e₅) = gets-eq-ok _ _ fs tt q₄ in
    let (empty, q₆, e₆) = require-eq-ok _ _ _ fs tt q₅ in
    let (done, e₇) = last_call-eq-ok _ fs tt q₆ in
    let (t, there, below, gone) = remove-eq-ok abs fs done in
    (
      (λ p. ground arith),
      record {
        abs = abs;
        t = t;
        n = n;
        resolved = resolved;
        looked = or_not_found-eq-ok (stat fs abs) n looked;
        kind = is_dir;
        there = there;
        nodes = λ k.
            ap (λ x. node_at x.1 k) (e₁ ∙ e₂ ∙ e₃ ∙ e₄ ∙ e₅ ∙ e₆)
            ∙ ap (λ x. node_at x k) (e₇ ∙ gone)
            ∙ node_at-delete t k fs below;
      },
    )
