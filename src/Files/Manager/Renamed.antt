-- ===== src/Files/Manager/Renamed.antt =====
-- What `Rename` has done when it succeeds.
use mathlib.Core.Logic.{ite}
use mathlib.Core.Path.{subst}
use mdtree.Prelude.{
  ℕ, Bytes, ◌≡◌, ◌≢◌, ◌⊎◌, inl, inr, sym, ap, ◌∙◌, Bool, true, not, ◌&&◌, Option, none, some, arith,
  All,
}
use mdtree.Result.{ok, err}
use mdtree.Text.{CaseTable}
use mdtree.FilePath.{dir, elems, is_abs}
use mdtree.FilePath.Clean.{parts, elems-rooted}
use mdtree.FilePath.Split.{IsElem}
use mdtree.Fs.Node.{enoent, Node, Loc, loc_discrete, Fs, node_at}
use mdtree.Fs.Reads.{IoResult, stat, locate}
use mdtree.Fs.Reads
use mdtree.Fs.Writes.{mkdir_all}
use mdtree.Fs.Writes
use mdtree.Fs.Found.{stat_elems-dir}
use mdtree.Fs.Grown.{IsGrown, grown_more, mkdir_all-Grown}
use mdtree.Fs.More.{stat-More}
use mdtree.Fs.Moved.{rename-Moved}
use mdtree.Files.Op.Inversion.{
  gets-eq-ok, check-eq-ok, require-eq-ok, call-eq-ok, or_not_found-eq-ok,
}
use mdtree.Files.Markdown.{is_markdown}
use mdtree.Files.Resolver.{new_resolver, Resolver, resolve}
use mdtree.Files.Resolver.Confined.{IsConfined, resolve-IsConfined}
use mdtree.Files.Manager.{FileInfo, rename, resolve_path}
use mdtree.Files.Manager.Created.{missed}
use mdtree.Files.Manager.Saved.{info_of-kept}

is_dir-dir : (n : Node) (m : ℕ) → not (Reads.is_dir n) ≡ true → n ≢ Node.dir m
is_dir-dir (Node.dir m') m h = cc
is_dir-dir (Node.file c m') m h = λ q. cc
is_dir-dir (Node.link c m') m h = λ q. cc

-- What was looked at and was no directory is at no directory's location, also after more was made.
no_dir_at :
    (root : Bytes) (fs fs' : Fs) (abs : Bytes) (n : Node) (s : Loc) (m : ℕ)
    → IsConfined (parts root) abs
    → ((k : Loc) → (node_at fs' k ≡ node_at fs k) ⊎ (node_at fs k ≡ none))
    → stat fs abs ≡ ok n
    → not (Reads.is_dir n) ≡ true
    → locate fs' abs ≡ ok s
    → node_at fs' s ≢ some (Node.dir m)
unfolding stat locate
no_dir_at root fs fs' abs n s m k more looked kind at d = is_dir-dir n m kind (
    stat_elems-dir fs' (elems abs) s n m
      (subst (All IsElem) (sym (ap elems k.path ∙ elems-rooted k.names k.plain)) k.plain) at d
      (stat-More fs fs' abs n more looked))

old_node :
    (now : ℕ) (o o' : Option Node) (n : Node)
    → IsGrown now o o'
    → o' ≡ some n
    → o' ≢ some (Node.dir now)
    → o ≡ some n
old_node now o o' n (inl p) q d = sym p ∙ q
old_node now o o' n (inr (p, p')) q d = absurd (d p')

-- What `Rename` found out and did. The directories on the way to the new path may be new.
pub record Renamed (u : CaseTable) (r : Resolver) (from to : Bytes) (fs fs' : Fs) : Type 0 where
  pub abs_from : Bytes
  pub abs_to : Bytes
  pub s : Loc
  pub t : Loc
  pub n : Node
  pub resolved_from : resolve r fs from ≡ ok abs_from
  pub resolved_to : resolve r fs to ≡ ok abs_to
  pub markdown : is_markdown u abs_from && is_markdown u abs_to ≡ true
  pub missing : stat fs abs_to ≡ err enoent
  pub from_at : locate (mkdir_all (dir abs_to) fs).1 abs_from ≡ ok s
  pub to_at : locate (mkdir_all (dir abs_to) fs).1 abs_to ≡ ok t
  pub there : node_at fs s ≡ some n
  pub file : (m : ℕ) → n ≢ Node.dir m
  pub holds : node_at fs' t ≡ some n
  pub gone : (s ≡ t) ⊎ (node_at fs' s ≡ none)
  pub others : (k : Loc) → (k ≡ s) ⊎ ((k ≡ t) ⊎ IsGrown fs.now (node_at fs k) (node_at fs' k))

at_target :
    (t : Loc) (n : Node) (m m' : Option Node) → m' ≡ ite (loc_discrete t t) (some n) m → m' ≡ some n
at_target t n m m' q = ground arith

at_source :
    (s t : Loc) (n : Node) (m m' : Option Node)
    → m' ≡ ite (loc_discrete s t) (some n) (ite (loc_discrete s s) none m)
    → (s ≡ t) ⊎ (m' ≡ none)
at_source s t n m m' q = ground arith

elsewhere :
    (now : ℕ) (k s t : Loc) (n : Node) (o m m' : Option Node)
    → m' ≡ ite (loc_discrete k t) (some n) (ite (loc_discrete k s) none m)
    → IsGrown now o m
    → (k ≡ s) ⊎ ((k ≡ t) ⊎ IsGrown now o m')
elsewhere now k s t n o m m' q g = ground arith

-- Where renaming succeeds, below an absolute root, both paths resolved to markdown names, nothing
-- could be looked at under the new one, the node that stood at the location of the old one, which
-- is no directory, stands at the location of the new one, the old location is empty unless it is
-- the new one, and every other location holds what it held before or a new directory.
pub rename-Renamed :
    (u : CaseTable) (root : Bytes) (follow : Bool) (from to : Bytes) (fs : Fs) (info : FileInfo)
    → is_abs root ≡ true
    → (rename u (new_resolver root follow) from to fs).0 ≡ ok info
    → Renamed u
        (new_resolver root follow)
        from
        to
        fs
        (rename u (new_resolver root follow) from to fs).1
unfolding rename resolve_path
rename-Renamed u root follow from to fs info a q =
    let (abs_from, ra, q₁, e₁) = gets-eq-ok _ _ fs info q in
    let (abs_to, rb, q₂, e₂) = gets-eq-ok _ _ fs info q₁ in
    let (md, q₃, e₃) = require-eq-ok _ _ _ fs info q₂ in
    let (fi, looked, q₄, e₄) = gets-eq-ok _ _ fs info q₃ in
    let (kind, q₅, e₅) = require-eq-ok _ _ _ fs info q₄ in
    let (u₀, free, q₆, e₆) = check-eq-ok _ _ fs info q₅ in
    let (_, w₁, q₇, e₇) = call-eq-ok _ _ fs info q₆ in
    let (_, w₂, q₈, e₈) = call-eq-ok _ _ _ info q₇ in
    let grown = mkdir_all-Grown (dir abs_to) fs in
    let mid : Fs = (mkdir_all (dir abs_to) fs).1 in
    let final : Fs = (Writes.rename abs_from abs_to mid).1 in
    let more = λ (k : Loc). grown_more fs.now (node_at fs k) (node_at mid k) (grown.nodes k) in
    let within = resolve-IsConfined root follow fs from abs_from a ra in
    let no_dir = λ (s : Loc) (m : ℕ) (p : locate mid abs_from ≡ ok s).
      no_dir_at root fs mid abs_from fi s m within more
        (or_not_found-eq-ok (stat fs abs_from) fi looked) kind p in
    let moved = rename-Moved abs_from abs_to mid no_dir w₂ in
    let (s, t, n) : Loc × Loc × Node = (moved.s, moved.t, moved.n) in
    let whole = ap (λ x. x.1) (e₁ ∙ e₂ ∙ e₃ ∙ e₄ ∙ e₅ ∙ e₆ ∙ e₇ ∙ e₈) ∙ info_of-kept abs_to final in
    subst (Renamed u (new_resolver root follow) from to fs) (sym whole) (record {
      abs_from = abs_from;
      abs_to = abs_to;
      s = moved.s;
      t = moved.t;
      n = moved.n;
      resolved_from = ra;
      resolved_to = rb;
      markdown = md;
      missing = missed (stat fs abs_to) u₀ free;
      from_at = moved.from_at;
      to_at = moved.to_at;
      there =
          old_node fs.now (node_at fs s) (node_at mid s) n (grown.nodes s) moved.here
            (no_dir s fs.now moved.from_at);
      file = λ m p. no_dir s m moved.from_at (moved.here ∙ ap some p);
      holds = at_target t n _ (node_at final t) (moved.nodes t);
      gone = at_source s t n (node_at mid s) (node_at final s) (moved.nodes s);
      others = λ k.
          elsewhere fs.now k s t n (node_at fs k) (node_at mid k) (node_at final k) (moved.nodes k)
            (grown.nodes k);
    })
