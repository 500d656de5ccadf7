-- ===== src/Search/Build.antt =====
-- `Build` of internal/search/index.go over the tree that `filepath.WalkDir` finds below the root.
pub mod Visible
use mdtree.Prelude.{
  ℕ, ◌-◌, Bytes, bytes, bytes_eq, Bool, true, false, not, ◌&&◌, ◌||◌, [], has, length, leb,
  if◌then◌else◌,
}
use mdtree.Prelude.Assoc
use mdtree.Prelude.Assoc.{Assoc}
use mdtree.Text.{CaseTable, has_prefix}
use mdtree.FilePath.{join}
use mdtree.Files.Markdown.{is_markdown}
use mdtree.Search.Index.{Doc, new_doc, Index}

-- A node of the walk: `leaf` is anything that is no directory, a link too; a directory says
-- whether it can be read, and has its entries in the order of their names.
mutual
  pub data Tree : Type 0 where
    leaf : Bytes → Tree
    branch : Bytes → Bool → Trees → Tree

  pub data Trees : Type 0 where
    nil : Trees
    cons : Tree → Trees → Trees

-- What `Lstat` of the root yields.
pub data Found : Type 0 where
  missing : Found
  found : Tree → Found

-- The variables of the callback; `stopped` is `filepath.SkipAll` on its way out.
pub record Walk : Type 0 where
  pub docs : Assoc Doc
  pub capped : Bool
  pub stopped : Bool

-- `filepath.Join(path, d.Name())`.
abbrev pub child_path : Bytes → Tree → Bytes
child_path path (leaf name) = join path name
child_path path (branch name readable entries) = join path name

module _ (u : CaseTable) (idx : Index) where
  abbrev pub is_hidden : Bytes → Bool
  is_hidden name = has_prefix name (bytes ".")

  -- `path != idx.root && (idx.ignore[name] || strings.HasPrefix(name, "."))`.
  unfoldable pub skips : Bytes → Bytes → Bool
  skips path name = not (bytes_eq path idx.root) && (has idx.ignore name || is_hidden name)

  -- The callback at a node that is no directory.
  unfoldable pub visit_file : Bytes → Bytes → Walk → Walk
  visit_file path name w =
      if leb idx.max_files (length w.docs)
      then record w { capped = true; stopped = true }
      else if is_markdown u name
      then record w { docs = Assoc.insert path (new_doc u path) w.docs }
      else w

  unfoldable mutual
    pub walk_tree : Bytes → Tree → Walk → Walk
    walk_tree path (leaf name) w = if w.stopped then w else visit_file path name w
    walk_tree path (branch name readable entries) w =
        let below = walk_trees path entries w in
        if w.stopped || skips path name || not readable then w else below

    pub walk_trees : Bytes → Trees → Walk → Walk
    walk_trees path nil w = w
    walk_trees path (cons t ts) w = walk_trees path ts (walk_tree (child_path path t) t w)

  abbrev pub start_walk : Walk
  start_walk = record { docs = []; capped = false; stopped = false }

  -- A root that is missing calls the callback with an error and no entry, which it drops.
  unfoldable pub walk_root : Found → Walk
  walk_root missing = start_walk
  walk_root (found t) = walk_tree idx.root t start_walk

  -- The clock is read at the start, after the walk, and when the documents are swapped in. The
  -- callback returns no error but the two skips, so the walk has none.
  unfoldable pub build : Found → ℕ → ℕ → ℕ → ℕ × ℕ × Index
  build tree start ended swapped =
      let w = walk_root tree in
      (
        length w.docs,
        ended - start,
        record idx { docs = w.docs; built_at = swapped; last_build = ended - start },
      )
