-- ===== src/Fs/Writes.antt =====
-- The calls of Go's `os` package that change the tree.
use mdtree.Prelude.{
  Bytes, bytes, Bool, true, false, List, [], ◌∷◌, ◌++◌, Option, none, some, take, if◌then◌else◌,
}
use mdtree.Result.{ok, err}
use mdtree.FilePath.{slash, elems}
use mdtree.Fs.Node.{
  enoent, enotdir, eisdir, eexist, enotempty, einval, eio, Node, dir, file, link, Loc, loc_discrete,
  Fs, Fault, at_create, at_write, node_at, put, delete,
}
use mdtree.Fs.Reads.{IoResult, stat_elems, locate_elems, locate, below?, children_of}

abbrev pub is_same : Loc → Loc → Bool
is_same a b = elim (loc_discrete a b) [ yes _ ↦ true | no _ ↦ false ]

abbrev pub is_some : Option Loc → Bool
is_some none = false
is_some (some l) = true

abbrev pub is_at_create : Fault → Bool
is_at_create at_create = true
is_at_create _ = false

-- `os.Remove`: a file, a link, or an empty directory.
unfoldable pub remove_at : Loc → Fs → IoResult (Unit {0}) × Fs
remove_at [] fs = (err einval, fs)
remove_at (e ∷ es) fs = elim (node_at fs (e ∷ es)) [
  | none ↦ (err enoent, fs)
  | some (dir t) ↦ elim (children_of (e ∷ es) fs.nodes) [
    | [] ↦ (ok tt, delete (e ∷ es) fs)
    | _ ∷ _ ↦ (err enotempty, fs)
  ]
  | some _ ↦ (ok tt, delete (e ∷ es) fs)
]

unfoldable pub remove : Bytes → Fs → IoResult (Unit {0}) × Fs
remove p fs = elim (locate fs p) [ err e ↦ (err e, fs) | ok l ↦ remove_at l fs ]

-- `mkdir(2)`.
unfoldable pub mkdir : List Bytes → Fs → IoResult (Unit {0}) × Fs
mkdir es fs = elim (locate_elems fs es) [
  | err e ↦ (err e, fs)
  | ok l ↦ elim (node_at fs l) [ none ↦ (ok tt, put l (dir fs.now) fs) | some _ ↦ (err eexist, fs) ]
]

-- `os.MkdirAll`, from the top down: what is there must be a directory, what is missing is made.
unfoldable pub mkdir_from : List Bytes → List Bytes → Fs → IoResult (Unit {0}) × Fs
mkdir_from done [] fs = (ok tt, fs)
mkdir_from done (e ∷ es) fs =
    let here = done ++ (e ∷ []) in
    elim (stat_elems fs here) [
      | ok (dir t) ↦ mkdir_from here es fs
      | ok _ ↦ (err enotdir, fs)
      | err enoent ↦
          let (made, fs') = mkdir here fs in
          elim made [ err c ↦ (err c, fs') | ok _ ↦ mkdir_from here es fs' ]
      | err c ↦ (err c, fs)
    ]

unfoldable pub mkdir_all : Bytes → Fs → IoResult (Unit {0}) × Fs
mkdir_all p = mkdir_from [] (elems p)

-- Moves a directory with what is below it.
unfoldable pub move_nodes : Loc → Loc → List (Loc × Node) → List (Loc × Node)
move_nodes from to [] = []
move_nodes from to ((k, n) ∷ ns) =
    let rest = move_nodes from to ns in
    elim (below? from k) [ some r ↦ (to ++ r, n) ∷ rest | none ↦ (k, n) ∷ rest ]

unfoldable pub move_dir : Loc → Loc → Fs → Fs
move_dir from to fs = record fs { nodes = move_nodes from to fs.nodes }

-- `rename(2)` at two locations. What stands at the target is replaced where the kernel allows it.
unfoldable pub rename_dir_at : Loc → Loc → Option Node → Fs → IoResult (Unit {0}) × Fs
rename_dir_at from to none fs = (ok tt, move_dir from to fs)
rename_dir_at from to (some (dir t)) fs = elim (children_of to fs.nodes) [
  | [] ↦ (ok tt, move_dir from to (delete to fs))
  | _ ∷ _ ↦ (err enotempty, fs)
]
rename_dir_at from to (some _) fs = (err enotdir, fs)

unfoldable pub rename_file_at : Loc → Node → Loc → Option Node → Fs → IoResult (Unit {0}) × Fs
rename_file_at from n to (some (dir t)) fs = (err eisdir, fs)
rename_file_at from n to _ fs =
    if is_same from to then (ok tt, fs) else (ok tt, put to n (delete from (delete to fs)))

unfoldable pub rename_at : Loc → Loc → Fs → IoResult (Unit {0}) × Fs
rename_at from to fs = elim (node_at fs from) [
  | none ↦ (err enoent, fs)
  | some (dir t) ↦
      if is_same from to
      then (ok tt, fs)
      else if is_some (below? from to)
      then (err einval, fs)
      else rename_dir_at from to (node_at fs to) fs
  | some (file c t) ↦ rename_file_at from (file c t) to (node_at fs to) fs
  | some (link target t) ↦ rename_file_at from (link target t) to (node_at fs to) fs
]

-- `os.Rename`.
unfoldable pub rename : Bytes → Bytes → Fs → IoResult (Unit {0}) × Fs
rename from to fs = elim (locate fs from) [
  | err e ↦ (err e, fs)
  | ok f ↦ elim (locate fs to) [ err e ↦ (err e, fs) | ok t ↦ rename_at f t fs ]
]

-- `os.CreateTemp(dir, ".mdtree-*.tmp")`: an empty file with a fresh name.
unfoldable pub temp_name : Bytes → Bytes
temp_name suffix = bytes ".mdtree-" ++ (suffix ++ bytes ".tmp")

unfoldable pub create_temp : Bytes → Fs → IoResult Bytes × Fs
create_temp d fs =
    let p = d ++ (slash ∷ temp_name fs.temp_suffix) in
    if is_at_create fs.fault then (err eio, fs) else elim (locate fs p) [
      | err e ↦ (err e, fs)
      | ok l ↦ elim (node_at fs l) [
        | none ↦ (ok p, put l (file [] fs.now) fs)
        | some _ ↦ (err eexist, fs)
      ]
    ]

-- Writing to an open file, whole or up to where the device fails.
unfoldable pub write_string : Bytes → Bytes → Fs → IoResult (Unit {0}) × Fs
write_string p content fs = elim (locate fs p) [
  | err e ↦ (err e, fs)
  | ok l ↦ elim fs.fault [
    | at_write n ↦ (err eio, put l (file (take n content) fs.now) fs)
    | _ ↦ (ok tt, put l (file content fs.now) fs)
  ]
]
