-- ===== src/Files/Manager/Created.antt =====
-- What `Create` has done when it succeeds.
use mathlib.Core.Logic.{ite}
use mathlib.Core.Path.{subst}
use mdtree.Prelude.{
  ℕ, Bytes, ◌≡◌, ◌≢◌, ◌⊎◌, inl, sym, ap, ◌∙◌, Bool, true, ◌∷◌, ◌++◌, Option, none, some, arith,
  length, leb, All,
}
use mdtree.Result.{ok, err}
use mdtree.Text.{CaseTable}
use mdtree.FilePath.{dir, slash, elems, is_abs}
use mdtree.FilePath.Clean.{parts, elems-rooted}
use mdtree.FilePath.Split.{IsElem}
use mdtree.Fs.Node.{enoent, Node, file, Loc, loc_discrete, Fs, node_at}
use mdtree.Fs.Reads.{IoResult, stat, locate}
use mdtree.Fs.Writes.{temp_name, mkdir_all}
use mdtree.Fs.Last.{locate_elems-stat_elems}
use mdtree.Fs.Fewer.{locate-Fewer}
use mdtree.Fs.Grown.{IsGrown, mkdir_all-Grown}
use mdtree.Files.Op.{must_miss}
use mdtree.Files.Op.Inversion.{gets-eq-ok, check-eq-ok, require-eq-ok, call-eq-ok}
use mdtree.Files.Markdown.{is_markdown}
use mdtree.Files.Resolver.{new_resolver, Resolver, resolve}
use mdtree.Files.Resolver.Confined.{IsConfined, resolve-IsConfined}
use mdtree.Files.Manager.{FileInfo, max_file_size, create, resolve_path, write_file_atomic}
use mdtree.Files.Manager.Atomic.{write_file_atomic-ok, write_file_atomic-located}
use mdtree.Files.Manager.Collision.{write_file_atomic-same}
use mdtree.Files.Manager.Made.{info_of-Made}
use mdtree.Files.Manager.Saved.{info_of-kept}

pub missed : (r : IoResult Node) (t : Unit {0}) → must_miss r ≡ ok t → r ≡ err enoent
missed r t q = ground arith

stat_taken :
    (root : Bytes) (fs : Fs) (abs : Bytes) (t : Loc) (n : Node)
    → IsConfined (parts root) abs
    → locate fs abs ≡ ok t
    → stat fs abs ≡ ok n
    → node_at fs t ≢ none
unfolding stat locate
stat_taken root fs abs t n k l q =
    locate_elems-stat_elems fs (elems abs) t n
      (subst (All IsElem) (sym (ap elems k.path ∙ elems-rooted k.names k.plain)) k.plain) l q

-- Where the new file can be looked at, it was not the temporary file that stood at its place.
created_apart :
    (root : Bytes) (fs : Fs) (abs content : Bytes) (t : Loc) (n : Node)
    → IsConfined (parts root) abs
    → locate fs abs ≡ ok t
    → (write_file_atomic abs content fs).0 ≡ ok tt
    → stat (write_file_atomic abs content fs).1 abs ≡ ok n
    → locate fs (dir abs ++ (slash ∷ temp_name fs.temp_suffix)) ≢ ok t
created_apart root fs abs content t n k l w q same =
    let (free, nodes) = write_file_atomic-same abs content fs t l same w in
    let fs' : Fs = (write_file_atomic abs content fs).1 in
    stat_taken root fs' abs t n k (locate-Fewer fs fs' abs t (λ j. inl (nodes j)) l) q
      (nodes t ∙ free)

-- What `Create` found out and did. The directories on the way may be new.
pub record Created (u : CaseTable) (r : Resolver) (path content : Bytes) (fs fs' : Fs)
    : Type 0 where
  pub abs : Bytes
  pub t : Loc
  pub resolved : resolve r fs path ≡ ok abs
  pub markdown : is_markdown u abs ≡ true
  pub bounded : leb (length content) max_file_size ≡ true
  pub missing : stat fs abs ≡ err enoent
  pub located : locate (mkdir_all (dir abs) fs).1 abs ≡ ok t
  pub holds : node_at fs' t ≡ some (file content fs.now)
  pub others : (k : Loc) → (k ≡ t) ⊎ IsGrown fs.now (node_at fs k) (node_at fs' k)

at_self : (t : Loc) (m m' : Option Node) → ite (loc_discrete t t) m m' ≡ m
at_self t m m' = ground arith

with_file :
    (now : ℕ) (k t : Loc) (n m m' : Option Node) (f : Node)
    → m' ≡ ite (loc_discrete k t) (some f) m
    → IsGrown now n m
    → (k ≡ t) ⊎ IsGrown now n m'
with_file now k t n m m' f q g = ground arith

-- Where creating succeeds, below an absolute root, the path resolved to a markdown name, the content
-- is within the limit, nothing could be looked at there, the location that the path has once its
-- parent directories are made holds a file with that content, and every other location holds what
-- it held before or a new directory.
pub create-Created :
    (u : CaseTable) (root : Bytes) (follow : Bool) (path content : Bytes) (fs : Fs)
    (info : FileInfo)
    → is_abs root ≡ true
    → (create u (new_resolver root follow) path content fs).0 ≡ ok info
    → Created u
        (new_resolver root follow)
        path
        content
        fs
        (create u (new_resolver root follow) path content fs).1
unfolding create resolve_path
create-Created u root follow path content fs info a q =
    let (abs, resolved, q₁, e₁) = gets-eq-ok _ _ fs info q in
    let (md, q₂, e₂) = require-eq-ok _ _ _ fs info q₁ in
    let (small, q₃, e₃) = require-eq-ok _ _ _ fs info q₂ in
    let (u₀, free, q₄, e₄) = check-eq-ok _ _ fs info q₃ in
    let (_, w₁, q₅, e₅) = call-eq-ok _ _ fs info q₄ in
    let (_, w₂, q₆, e₆) = call-eq-ok _ _ _ info q₅ in
    let grown = mkdir_all-Grown (dir abs) fs in
    let mid : Fs = (mkdir_all (dir abs) fs).1 in
    let final : Fs = (write_file_atomic abs content mid).1 in
    let (t, there) = write_file_atomic-located abs content mid w₂ in
    let made = info_of-Made u abs final info md q₆ in
    let k = resolve-IsConfined root follow fs path abs a resolved in
    let apart = created_apart root mid abs content t made.node k there w₂ made.there in
    let nodes = λ (j : Loc). write_file_atomic-ok abs content mid t j there apart w₂ in
    let whole = ap (λ x. x.1) (e₁ ∙ e₂ ∙ e₃ ∙ e₄ ∙ e₅ ∙ e₆) ∙ info_of-kept abs final in
    subst (Created u (new_resolver root follow) path content fs) (sym whole) (record {
      abs = abs;
      t = t;
      resolved = resolved;
      markdown = md;
      bounded = small;
      missing = missed (stat fs abs) u₀ free;
      located = there;
      holds = nodes t ∙ at_self t _ _ ∙ ap (λ n. some (file content n)) grown.now;
      others = λ j.
          with_file fs.now j t (node_at fs j) (node_at mid j) (node_at final j)
            (file content mid.now) (nodes j) (grown.nodes j);
    })
