-- ===== src/Files/Lister.antt =====
-- `Lister` of internal/files/tree.go: the directories and markdown files in one directory.
pub mod Described
pub mod Shown
use mathlib.Core.Bool.{not}
use mdtree.Prelude.{
  ℕ, Bytes, bytes, bytes_eq, Bool, true, false, ◌&&◌, List, [], ◌∷◌, Option, none, some, has,
  if◌then◌else◌,
}
use mdtree.Prelude.Sort.{sort_by}
use mdtree.Result.{ok, err}
use mdtree.Text.{CaseTable, to_lower, has_prefix, lt_bytes}
use mdtree.FilePath.{join, dir}
use mdtree.Fs.Node.{Node, link, Fs}
use mdtree.Fs.Reads.{stat, node_size, read_dir}
use mdtree.Fs.Reads
use mdtree.Files.Error.{not_dir}
use mdtree.Files.Op.{Op, ◌>>=◌, ◌>>◌, gets, require, raw, or_not_found}
use mdtree.Files.Markdown.{is_markdown}
use mdtree.Files.Resolver.{Resolver, resolve}
use mdtree.Files.Manager.{node_time}

pub data EntryType : Type 0 where
  dir_entry file_entry : EntryType

pub record Entry : Type 0 where
  pub name : Bytes
  pub path : Bytes
  pub type : EntryType
  pub size : ℕ
  pub mod_time : ℕ

pub record Listing : Type 0 where
  pub path : Bytes
  pub parent : Bytes
  pub entries : List Entry

pub record Lister : Type 0 where
  pub resolver : Resolver
  pub ignore : List Bytes
  pub show_hidden : Bool

unfoldable pub new_lister : Resolver → List Bytes → Bool → Lister
new_lister resolver ignore show_hidden = record {
  resolver = resolver;
  ignore = ignore;
  show_hidden = show_hidden;
}

-- Whether the entry is a directory, a link followed once; `none` for a link that leads nowhere.
unfoldable pub entry_is_dir : Fs → Bytes → Node → Option Bool
entry_is_dir fs full (link target t) = elim (stat fs full) [
  | ok n ↦ some (Reads.is_dir n)
  | err _ ↦ none
]
entry_is_dir fs full n = some (Reads.is_dir n)

module _ (u : CaseTable) (l : Lister) where
  -- One round of the loop, with `none` for `continue`.
  unfoldable pub list_entry : Fs → Bytes → Bytes × Node → Option Entry
  list_entry fs abs (name, n) =
      let full = join abs name in
      if not l.show_hidden && has_prefix name (bytes ".")
      then none
      else if has l.ignore name
      then none
      else elim (entry_is_dir fs full n) [
        | none ↦ none
        | some true ↦ some (record {
          name = name;
          path = full;
          type = dir_entry;
          size = 0;
          mod_time = node_time n;
        })
        | some false ↦
            if is_markdown u name
            then some (record {
              name = name;
              path = full;
              type = file_entry;
              size = node_size n;
              mod_time = node_time n;
            })
            else none
      ]

  abbrev pub cons_some : Option Entry → List Entry → List Entry
  cons_some none es = es
  cons_some (some e) es = e ∷ es

  unfoldable pub list_entries : Fs → Bytes → List (Bytes × Node) → List Entry
  list_entries fs abs [] = []
  list_entries fs abs (de ∷ des) = cons_some (list_entry fs abs de) (list_entries fs abs des)

  abbrev pub is_dir_entry : EntryType → Bool
  is_dir_entry dir_entry = true
  is_dir_entry file_entry = false

  abbrev pub same_type : EntryType → EntryType → Bool
  same_type dir_entry dir_entry = true
  same_type file_entry file_entry = true
  same_type _ _ = false

  -- Directories first, then by name without regard to case.
  unfoldable pub less_entry : Entry → Entry → Bool
  less_entry a b =
      if not (same_type a.type b.type)
      then is_dir_entry a.type
      else lt_bytes (to_lower u a.name) (to_lower u b.name)

  unfoldable pub list : Bytes → Op Listing
  list path = do
    abs ← gets (λ fs. resolve l.resolver fs path)
    info ← gets (λ fs. or_not_found (stat fs abs))
    require (Reads.is_dir info) not_dir
    des ← gets (λ fs. raw (read_dir fs abs))
    gets (λ fs. ok (record {
      path = abs;
      parent = if bytes_eq abs l.resolver.root then [] else dir abs;
      entries = sort_by less_entry (list_entries fs abs des);
    }))
