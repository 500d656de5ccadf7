-- ===== src/Files/Manager.antt =====
-- `Manager` of internal/files/file.go: reading and changing markdown files below the root.
pub mod Refusal
pub mod Staged
pub mod Atomic
pub mod Collision
pub mod Saved
pub mod Removed
pub mod Made
pub mod Created
pub mod ReadBack
pub mod Renamed
pub mod Directory
use mdtree.Prelude.{
  ℕ, Bytes, bytes_eq, Bool, true, false, not, ◌&&◌, List, [], ◌∷◌, length, leb, if◌then◌else◌,
}
use mdtree.Result.{ok, err}
use mdtree.Text.{CaseTable}
use mdtree.FilePath.{base, dir}
use mdtree.Fs.Node.{Node, file, link, Fs, Fault, at_sync, at_close, at_rename, eio}
use mdtree.Fs.Reads.{IoResult, stat, node_size, read_file, read_dir}
use mdtree.Fs.Reads
use mdtree.Fs.Writes.{create_temp, write_string, mkdir_all}
use mdtree.Fs.Writes
use mdtree.Files.Error.{invalid_path, not_markdown, too_large, is_dir, not_dir, not_empty}
use mdtree.Files.Op.{Op, ◌>>=◌, ◌>>◌, gets, require, call, raw, or_not_found, must_miss}
use mdtree.Files.Markdown.{is_markdown}
use mdtree.Files.Resolver.{Resolver, resolve}

-- 10 MiB.
abbrev pub max_file_size : ℕ
max_file_size = 10485760

pub record FileInfo : Type 0 where
  pub path : Bytes
  pub name : Bytes
  pub size : ℕ
  pub mod_time : ℕ

pub record FileContent : Type 0 where
  pub info : FileInfo
  pub content : Bytes

abbrev pub node_time : Node → ℕ
node_time (Node.dir t) = t
node_time (file c t) = t
node_time (link target t) = t

unfoldable pub file_info_of : Bytes → Node → FileInfo
file_info_of abs n = record {
  path = abs;
  name = base abs;
  size = node_size n;
  mod_time = node_time n;
}

unfoldable pub info_of : Bytes → Op FileInfo
info_of abs = do n ← gets (λ fs. raw (stat fs abs)); gets (λ _. ok (file_info_of abs n))

-- What follows the creation of the temporary file, up to its removal.
abbrev fails_at_sync : Fault → Bool
fails_at_sync at_sync = true
fails_at_sync _ = false

abbrev fails_at_close : Fault → Bool
fails_at_close at_close = true
fails_at_close _ = false

abbrev fails_at_rename : Fault → Bool
fails_at_rename at_rename = true
fails_at_rename _ = false

unfoldable pub fill_temp : Bytes → Bytes → Bytes → Fs → IoResult (Unit {0}) × Fs
fill_temp tmp path content fs =
    let (written, fs') = write_string tmp content fs in
    elim written [
      | err e ↦ (err e, fs')
      | ok _ ↦
          if fails_at_sync fs'.fault
          then (err eio, fs')
          else if fails_at_close fs'.fault
          then (err eio, fs')
          else if fails_at_rename fs'.fault
          then (err eio, fs')
          else Writes.rename tmp path fs'
    ]

-- The deferred removal runs on every path out, and its error is dropped.
unfoldable pub write_file_atomic : Bytes → Bytes → Fs → IoResult (Unit {0}) × Fs
write_file_atomic path content fs =
    let (made, fs') = create_temp (dir path) fs in
    elim made [
      | err e ↦ (err e, fs')
      | ok tmp ↦
          let (r, fs'') = fill_temp tmp path content fs' in
          let (_, clean_fs) = Writes.remove tmp fs'' in (r, clean_fs)
    ]

module _ (u : CaseTable) (r : Resolver) where
  unfoldable pub resolve_path : Bytes → Op Bytes
  resolve_path p = gets (λ fs. resolve r fs p)

  abbrev existing : Bytes → Op Node
  existing abs = gets (λ fs. or_not_found (stat fs abs))

  abbrev absent : Bytes → Op (Unit {0})
  absent abs = gets (λ fs. must_miss (stat fs abs))

  unfoldable pub read : Bytes → Op FileContent
  read path = do
    abs ← resolve_path path
    require (is_markdown u abs) not_markdown
    fi ← existing abs
    require (not (Reads.is_dir fi)) is_dir
    require (leb (node_size fi) max_file_size) too_large
    data_read ← gets (λ fs. raw (read_file fs abs))
    gets (λ _. ok (record { info = file_info_of abs fi; content = data_read }))

  unfoldable pub save : Bytes → Bytes → Op FileInfo
  save path content = do
    abs ← resolve_path path
    require (is_markdown u abs) not_markdown
    require (leb (length content) max_file_size) too_large
    fi ← existing abs
    require (not (Reads.is_dir fi)) is_dir
    call (write_file_atomic abs content)
    info_of abs

  unfoldable pub create : Bytes → Bytes → Op FileInfo
  create path content = do
    abs ← resolve_path path
    require (is_markdown u abs) not_markdown
    require (leb (length content) max_file_size) too_large
    absent abs
    call (mkdir_all (dir abs))
    call (write_file_atomic abs content)
    info_of abs

  unfoldable pub delete : Bytes → Op (Unit {0})
  delete path = do
    abs ← resolve_path path
    require (is_markdown u abs) not_markdown
    fi ← existing abs
    require (not (Reads.is_dir fi)) is_dir
    call (Writes.remove abs)

  unfoldable pub rename : Bytes → Bytes → Op FileInfo
  rename from to = do
    abs_from ← resolve_path from
    abs_to ← resolve_path to
    require (is_markdown u abs_from && is_markdown u abs_to) not_markdown
    fi ← existing abs_from
    require (not (Reads.is_dir fi)) is_dir
    absent abs_to
    call (mkdir_all (dir abs_to))
    call (Writes.rename abs_from abs_to)
    info_of abs_to

module _ (r : Resolver) where
  abbrev existing_entry : Bytes → Op Node
  existing_entry abs = gets (λ fs. or_not_found (stat fs abs))

  unfoldable pub mkdir : Bytes → Op (Unit {0})
  mkdir path = do
    abs ← gets (λ fs. resolve r fs path)
    gets (λ fs. must_miss (stat fs abs))
    call (mkdir_all abs)

  abbrev is_empty : List (Bytes × Node) → Bool
  is_empty [] = true
  is_empty (e ∷ es) = false

  unfoldable pub delete_dir : Bytes → Op (Unit {0})
  delete_dir path = do
    abs ← gets (λ fs. resolve r fs path)
    require (not (bytes_eq abs r.root)) invalid_path
    fi ← existing_entry abs
    require (Reads.is_dir fi) not_dir
    entries ← gets (λ fs. raw (read_dir fs abs))
    require (is_empty entries) not_empty
    call (Writes.remove abs)

  unfoldable pub rename_dir : Bytes → Bytes → Op (Unit {0})
  rename_dir from to = do
    abs_from ← gets (λ fs. resolve r fs from)
    abs_to ← gets (λ fs. resolve r fs to)
    require (not (bytes_eq abs_from r.root)) invalid_path
    fi ← existing_entry abs_from
    require (Reads.is_dir fi) not_dir
    gets (λ fs. must_miss (stat fs abs_to))
    call (mkdir_all (dir abs_to))
    call (Writes.rename abs_from abs_to)
