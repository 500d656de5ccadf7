-- ===== src/Fs/Reads.antt =====
-- The calls of Go's `os` package that read: Stat, ReadFile, ReadDir, and locating a path.
use mathlib.Core.Logic.{ite}
use mdtree.Prelude.{
  ℕ, Bytes, bytes_discrete, Bool, true, false, List, [], ◌∷◌, ◌++◌, Option, none, some, length,
  if◌then◌else◌,
}
use mdtree.Result.{Result, ok, err, ◌>>=◌}
use mdtree.Text.{lt_bytes}
use mdtree.FilePath.{elems}
use mdtree.Fs.Node.{
  Errno, enoent, enotdir, eisdir, einval, Node, dir, file, link, Loc, Fs, node_at, parent, walk,
  kernel_links,
}

abbrev pub IoResult : Type 0 → Type 0
IoResult A = Result Errno A

abbrev pub or_enoent : Option Node → IoResult Node
or_enoent none = err enoent
or_enoent (some n) = ok n

-- `os.Stat`: links are followed.
unfoldable pub stat_elems : Fs → List Bytes → IoResult Node
stat_elems fs es = do l ← walk kernel_links fs [] es; or_enoent (node_at fs l)

unfoldable pub stat : Fs → Bytes → IoResult Node
stat fs p = stat_elems fs (elems p)

abbrev pub is_dir : Node → Bool
is_dir (dir t) = true
is_dir (file c t) = false
is_dir (link target t) = false

abbrev pub node_size : Node → ℕ
node_size (dir t) = 0
node_size (file c t) = length c
node_size (link target t) = length target

-- `os.ReadFile`.
unfoldable pub read_file : Fs → Bytes → IoResult Bytes
read_file fs p = do
  n ← stat fs p
  elim n [ dir t ↦ err eisdir | file c t ↦ ok c | link target t ↦ err einval ]

abbrev pub last_name : Bytes → List Bytes → Bytes
last_name e [] = e
last_name e (f ∷ es) = last_name f es

abbrev pub in_dir : Option Node → Loc → IoResult Loc
in_dir (some (dir t)) l = ok l
in_dir _ l = err enotdir

-- The location that a path names, its last name taken as it stands; its parent is a directory.
unfoldable pub locate_elems : Fs → List Bytes → IoResult Loc
locate_elems fs [] = ok []
locate_elems fs (e ∷ es) = do
  l ← walk kernel_links fs [] (parent (e ∷ es))
  in_dir (node_at fs l) (l ++ (last_name e es ∷ []))

unfoldable pub locate : Fs → Bytes → IoResult Loc
locate fs p = locate_elems fs (elems p)

-- The rest of `l` below `base`.
unfoldable pub below? : Loc → Loc → Option Loc
below? [] l = some l
below? (b ∷ bs) [] = none
below? (b ∷ bs) (e ∷ es) = let rest = below? bs es in ite (bytes_discrete b e) rest none

-- The names in a directory, with their nodes.
unfoldable pub children_of : Loc → List (Loc × Node) → List (Bytes × Node)
children_of l [] = []
children_of l ((k, n) ∷ ns) = elim (below? l k) [
  | some (e ∷ []) ↦ (e, n) ∷ children_of l ns
  | _ ↦ children_of l ns
]

unfoldable pub insert_entry : Bytes × Node → List (Bytes × Node) → List (Bytes × Node)
insert_entry x [] = x ∷ []
insert_entry x (y ∷ ys) = if lt_bytes y.0 x.0 then y ∷ insert_entry x ys else x ∷ y ∷ ys

unfoldable pub sort_entries : List (Bytes × Node) → List (Bytes × Node)
sort_entries [] = []
sort_entries (x ∷ xs) = insert_entry x (sort_entries xs)

-- `os.ReadDir`: the entries in the order of their names, links not followed.
unfoldable pub read_dir : Fs → Bytes → IoResult (List (Bytes × Node))
read_dir fs p = do
  l ← walk kernel_links fs [] (elems p)
  elim (node_at fs l) [
    | some (dir t) ↦ ok (sort_entries (children_of l fs.nodes))
    | _ ↦ err enotdir
  ]
