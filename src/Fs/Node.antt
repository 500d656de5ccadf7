-- ===== src/Fs/Node.antt =====
-- The tree of nodes, and walking a path with symbolic links followed.
use mdtree.Prelude.{
  ℕ, zero, suc, Bytes, bytes_eq, Bool, true, false, ◌||◌, List, [], ◌∷◌, ◌++◌, Option, none, some,
  if◌then◌else◌,
}
use mathlib.Core.Logic.{ite}
use native.Mathlib.Decide.{ℕ_discrete}
use mdtree.Result.{Result, ok, err}
use mdtree.FilePath.{dot, dotdot, is_abs, split_slash}

-- The error numbers of the system calls.
pub data Errno : Type 0 where
  enoent enotdir eisdir eexist enotempty einval eloop eio : Errno

pub data Node : Type 0 where
  dir : ℕ → Node
  file : Bytes → ℕ → Node
  link : Bytes → ℕ → Node

-- A location: the names from the top directory down.
abbrev pub Loc : Type 0
Loc = List Bytes

unfoldable pub loc_discrete : Discrete Loc
unfolding ℕ_discrete
loc_discrete = hlevel ℕ_discrete

-- The step of an atomic write at which the device fails, if it does.
pub data Fault : Type 0 where
  no_fault at_create at_sync at_close at_rename : Fault
  at_write : ℕ → Fault

-- `temp_suffix` is the random part of the next temporary file's name.
pub record Fs : Type 0 where
  pub nodes : List (Loc × Node)
  pub now : ℕ
  pub temp_suffix : Bytes
  pub fault : Fault

unfoldable pub lookup_node : Loc → List (Loc × Node) → Option Node
lookup_node l [] = none
lookup_node l ((k, n) ∷ ns) = ite (loc_discrete l k) (some n) (lookup_node l ns)

unfoldable pub remove_node : Loc → List (Loc × Node) → List (Loc × Node)
remove_node l [] = []
remove_node l ((k, n) ∷ ns) =
    let rest = remove_node l ns in ite (loc_discrete l k) rest ((k, n) ∷ rest)

-- The top directory is always there.
unfoldable pub node_at : Fs → Loc → Option Node
unfolding lookup_node
node_at fs [] = some (dir 0)
node_at fs (e ∷ es) = lookup_node (e ∷ es) fs.nodes

unfoldable pub put : Loc → Node → Fs → Fs
put l n fs = record fs { nodes = (l, n) ∷ fs.nodes }

unfoldable pub delete : Loc → Fs → Fs
unfolding remove_node
delete l fs = record fs { nodes = remove_node l fs.nodes }

abbrev pub parent : Loc → Loc
parent [] = []
parent (e ∷ []) = []
parent (e ∷ f ∷ es) = e ∷ parent (f ∷ es)

abbrev pub is_nil : List Bytes → Bool
is_nil [] = true
is_nil (e ∷ es) = false

-- What to do with a link's start, target and the names behind it is the argument `follow`.
unfoldable pub walk_elems :
    Fs → (Loc → List Bytes → Result Errno Loc) → Loc → List Bytes → Result Errno Loc
unfolding node_at
walk_elems fs follow done [] = ok done
walk_elems fs follow done (e ∷ es) =
    let here = walk_elems fs follow done es in
    let up = walk_elems fs follow (parent done) es in
    let next = walk_elems fs follow (done ++ (e ∷ [])) es in
    if bytes_eq e [] || bytes_eq e dot
    then here
    else if bytes_eq e dotdot
    then up
    else elim (node_at fs (done ++ (e ∷ []))) [
      | none ↦ err enoent
      | some (dir t) ↦ next
      | some (file c t) ↦ if is_nil es then ok (done ++ (e ∷ [])) else err enotdir
      | some (link target t) ↦
          follow (if is_abs target then [] else done) (split_slash target ++ es)
    ]

-- The number bounds the links that one walk may follow.
unfoldable pub walk : ℕ → Fs → Loc → List Bytes → Result Errno Loc
unfolding walk_elems
walk zero fs = walk_elems fs (λ _ _. err eloop)
walk (suc links) fs = walk_elems fs (walk links fs)

-- The limit of the Linux kernel.
abbrev pub kernel_links : ℕ
kernel_links = 40
