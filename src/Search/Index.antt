-- ===== src/Search/Index.antt =====
-- `Index` of internal/search/index.go and the updates that keep it current.
pub mod Updates
pub mod Listed
use mdtree.Prelude.{ℕ, Bytes, [], List, length, ◌==◌, if◌then◌else◌}
use mdtree.Prelude.Assoc
use mdtree.Prelude.Assoc.{Assoc}
use mdtree.Text.{CaseTable, to_lower}
use mdtree.FilePath.{base}
use mdtree.Files.Markdown.{is_markdown}

pub record Doc : Type 0 where
  pub path : Bytes
  pub name : Bytes
  pub lower_path : Bytes
  pub lower_name : Bytes

unfoldable pub new_doc : CaseTable → Bytes → Doc
new_doc u path =
    let name : Bytes = base path in
    record { path = path; name = name; lower_path = to_lower u path; lower_name = to_lower u name }

pub record Index : Type 0 where
  pub root : Bytes
  pub ignore : List Bytes
  pub max_files : ℕ
  pub docs : Assoc Doc
  pub built_at : ℕ
  pub last_build : ℕ

-- `NewIndex`: a cap of zero or less stands for the default one; here negative caps are 0.
unfoldable pub new_index : Bytes → List Bytes → ℕ → Index
new_index root ignore max_files = record {
  root = root;
  ignore = ignore;
  max_files = if max_files == 0 then 200000 else max_files;
  docs = [];
  built_at = 0;
  last_build = 0;
}

module _ (u : CaseTable) where
  unfoldable pub add : Bytes → Index → Index
  add path idx =
      if is_markdown u path
      then record idx { docs = Assoc.insert path (new_doc u path) idx.docs }
      else idx

  unfoldable pub rename : Bytes → Bytes → Index → Index
  rename from to idx =
      if is_markdown u to
      then record idx { docs = Assoc.insert to (new_doc u to) (Assoc.erase from idx.docs) }
      else record idx { docs = Assoc.erase from idx.docs }

unfoldable pub remove : Bytes → Index → Index
remove path idx = record idx { docs = Assoc.erase path idx.docs }

pub record Stats : Type 0 where
  pub files : ℕ
  pub built_at : ℕ
  pub build_micros : ℕ

-- `Stats`; the build time is left in microseconds, which the code divides by 1000 as a float.
unfoldable pub stats : Index → Stats
stats idx = record {
  files = length idx.docs;
  built_at = idx.built_at;
  build_micros = Prim.Native.Nat.◌/◌ idx.last_build 1000;
}
