-- ===== src/Files/Manager/ReadBack.antt =====
-- Reading what was saved.
use mathlib.Core.Logic.{ite}
use mathlib.Core.Path.{subst}
use mdtree.Prelude.{
  Bytes, ◌≡◌, refl, sym, ap, ◌∙◌, Bool, true, ℕ, All, List, some, arith, length, leb,
}
use mdtree.Result.{Result, ok, err}
use mdtree.Text.{CaseTable}
use mdtree.FilePath.{elems, is_abs}
use mdtree.FilePath.Clean.{parts, elems-rooted}
use mdtree.FilePath.Split.{IsElem}
use mdtree.Fs.Node.{Node, file, Loc, loc_discrete, Fs, node_at}
use mdtree.Fs.Reads.{stat, read_file, locate}
use mdtree.Fs.Shape.{SameShape, locate-shape}
use mdtree.Fs.Found.{stat_elems-file}
use mdtree.Files.Op.{◌>>=◌, ◌>>◌, gets, require}
use mdtree.Files.Markdown.{is_markdown}
use mdtree.Files.Resolver.{Resolver, new_resolver, resolve}
use mdtree.Files.Resolver.Confined.{IsConfined, resolve-IsConfined}
use mdtree.Files.Resolver.Shaped.{resolve-shape}
use mdtree.Files.Manager.{FileInfo, file_info_of, max_file_size, save, read, resolve_path}
use mdtree.Files.Manager.Made.{Made, save-Made}
use mdtree.Files.Manager.Saved.{save-Saved}

read_file_of_file :
    (fs : Fs) (abs c : Bytes) (m : ℕ) → stat fs abs ≡ ok (file c m) → read_file fs abs ≡ ok c
unfolding read_file
read_file_of_file fs abs c m q = rw q refl

read_of_file :
    (u : CaseTable) (r : Resolver) (path abs c : Bytes) (m : ℕ) (fs : Fs)
    → resolve r fs path ≡ ok abs
    → is_markdown u abs ≡ true
    → stat fs abs ≡ ok (file c m)
    → leb (length c) max_file_size ≡ true
    → read u r path fs ≡ (ok (record { info = file_info_of abs (file c m); content = c }), fs)
unfolding read resolve_path ◌>>=◌ ◌>>◌ gets require
read_of_file u r path abs c m fs p md s b = rw (p, md, s, b, read_file_of_file fs abs c m s) refl

stat_at_file :
    (fs : Fs) (abs : Bytes) (rs : List Bytes) (t : Loc) (n : Node) (c : Bytes) (m : ℕ)
    → IsConfined rs abs
    → locate fs abs ≡ ok t
    → node_at fs t ≡ some (file c m)
    → stat fs abs ≡ ok n
    → n ≡ file c m
unfolding locate stat
stat_at_file fs abs rs t n c m k =
    stat_elems-file fs (elems abs) t n c m
      (subst (All IsElem) (sym (ap elems k.path ∙ elems-rooted k.names k.plain)) k.plain)

saved_shape :
    (fs fs' : Fs) (t : Loc) (content c : Bytes) (now m : ℕ)
    → node_at fs t ≡ some (file c m)
    → ((k : Loc) → node_at fs' k ≡ ite (loc_discrete k t) (some (file content now)) (node_at fs k))
    → SameShape fs fs'
saved_shape fs fs' t content c now m q nodes k = ground (arith, nodes k)

abbrev or_this : {E A : Type 0} → A → Result E A → A
or_this a (ok b) = b
or_this a (err e) = a

same_value : {E A : Type 0} (a b : A) (r : Result E A) → r ≡ ok a → r ≡ ok b → a ≡ b
same_value a b r p q = ap (or_this a) (sym p ∙ q)

-- What was saved over a file is read back, whole and with the description that saving answered;
-- the path must not name a symbolic link, and the root is absolute.
pub save-read :
    (u : CaseTable) (root : Bytes) (follow : Bool) (path content : Bytes) (fs : Fs)
    (info : FileInfo) (abs : Bytes) (t : Loc) (c : Bytes) (m : ℕ)
    → is_abs root ≡ true
    → resolve (new_resolver root follow) fs path ≡ ok abs
    → locate fs abs ≡ ok t
    → node_at fs t ≡ some (file c m)
    → (save u (new_resolver root follow) path content fs).0 ≡ ok info
    → let fs' = (save u (new_resolver root follow) path content fs).1 in
      read u (new_resolver root follow) path fs'
      ≡ (ok (record { info = info; content = content }), fs')
save-read u root follow path content fs info abs t c m a p l q s =
    let r = new_resolver root follow in
    let fs' = (save u r path content fs).1 in
    let sv = save-Saved u root follow path content fs info a s in
    let (abs', p', made) = save-Made u r path content fs info s in
    let e = same_value sv.abs abs _ sv.resolved p in
    let e' = same_value abs' abs _ p' p in
    let at = same_value sv.t t _ (subst (λ x. locate fs x ≡ ok sv.t) e sv.there) l in
    let nodes =
      subst
        (λ x.
          (k : Loc)
          → node_at fs' k ≡ ite (loc_discrete k x) (some (file content fs.now)) (node_at fs k))
        at sv.nodes in
    let same = saved_shape fs fs' t content c fs.now m q nodes in
    let made' = subst (λ x. Made u x fs' info) e' made in
    let at' = nodes t ∙ ground arith in
    let n =
      stat_at_file fs' abs (parts root) t made'.node content fs.now
        (resolve-IsConfined root follow fs path abs a p) (locate-shape fs fs' abs same ∙ l) at'
        made'.there in
    read_of_file u r path abs content fs.now fs' (resolve-shape r fs fs' path same ∙ p)
      made'.markdown (made'.there ∙ ap ok n) sv.bounded
    ∙ ap (λ x. (ok (record { info = x; content = content }), fs'))
        (sym (made'.answer ∙ ap (file_info_of abs) n))
