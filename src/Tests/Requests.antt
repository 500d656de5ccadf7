-- ===== src/Tests/Requests.antt =====
-- Requests to the manager and the lister.
use mdtree.Prelude.{
  Bytes, List, ◌⊎◌, bytes, ◌≡◌, refl, true, false, [], ◌∷◌, bytes_discrete, has, ℕ_discrete, All,
}
use mdtree.Prelude.Sort.{sort_by, insert_by}
use mdtree.Result.{ok, err}
use mdtree.Tests.Sample.{ascii, root, tree}
use mdtree.FilePath.{
  is_abs, clean, join, split_slash, clean_elems, clean_step, render, join_slash, rel, rel_elems,
  elems, elems_of, base, dir, ext,
}
use mdtree.Fs.Node.{Node, walk, walk_elems, node_at, lookup_node, loc_discrete}
use mdtree.Fs.Reads.{stat, stat_elems, read_dir, children_of, below?, sort_entries, insert_entry}
use mdtree.Text.Strings.{all_space}
use mdtree.Text.{
  is_blank, contains_byte, has_prefix, runes, runes_skip, decode_rune, is_space_rune, to_lower,
  to_lower_rune, encode, encode_rune, lt_bytes,
}
use mdtree.Files.Error.{exists}
use mdtree.Files.Op.{raw, ◌>>=◌, ◌>>◌, gets, require, call}
use mdtree.Files.Markdown.{is_markdown}
use mdtree.Files.Manager.{create, resolve_path}
use mdtree.Files.Manager.Refusal.{create_file, serve, serve-refused}
use mdtree.Files.Lister.{
  Listing, Lister, dir_entry, file_entry, list, list_entries, list_entry, less_entry, entry_is_dir,
}
use mdtree.Files.Lister.Described.{IsLeftOut, Lists, ComesFrom}
use mdtree.Files.Lister.Shown.{IsOrdered, list-IsShown}
use mdtree.Files.Resolver.{
  resolve, new_resolver, within, absolute, check_links, eval_symlinks, eval_symlinks_loop,
  eval_links, rejoin,
}

-- The file is there, so that it is not created anew.
refused :
    (serve ascii (new_resolver root false) (create_file (bytes "b.md") []) tree).0 ≡ err exists
unfolding resolve new_resolver is_blank all_space contains_byte runes runes_skip decode_rune
    is_space_rune bytes_discrete ℕ_discrete within absolute check_links eval_symlinks
    eval_symlinks_loop eval_links rejoin is_abs clean join split_slash clean_elems clean_step render
    join_slash rel rel_elems elems elems_of base dir has_prefix walk walk_elems node_at lookup_node
    loc_discrete ◌>>=◌ ◌>>◌ gets require call is_markdown ext has to_lower to_lower_rune encode
    encode_rune stat stat_elems create resolve_path
refused = refl

serve-refused_example :
    (serve ascii (new_resolver root false) (create_file (bytes "b.md") []) tree).1 ≡ tree
serve-refused_example =
    serve-refused ascii (new_resolver root false) (create_file (bytes "b.md") []) tree exists
      refused refl

abbrev lister : Lister
lister = record { resolver = new_resolver root true; ignore = bytes "in" ∷ []; show_hidden = false }

-- The text file and the ignored link are left out, and the directory comes first.
abbrev listing : Listing
listing = record {
  path = root;
  parent = [];
  entries =
      record {
        name = bytes "Docs";
        path = bytes "/srv/Docs";
        type = dir_entry;
        size = 0;
        mod_time = 4;
      }
      ∷ record {
        name = bytes "out";
        path = bytes "/srv/out";
        type = dir_entry;
        size = 0;
        mod_time = 6;
      }
      ∷ record {
        name = bytes "b.md";
        path = bytes "/srv/b.md";
        type = file_entry;
        size = 2;
        mod_time = 2;
      }
      ∷ [];
}

listed : (list ascii lister root tree).0 ≡ ok listing
unfolding resolve new_resolver is_blank all_space contains_byte runes runes_skip decode_rune
    is_space_rune bytes_discrete ℕ_discrete within absolute check_links eval_symlinks
    eval_symlinks_loop eval_links rejoin is_abs clean join split_slash clean_elems clean_step render
    join_slash rel rel_elems elems elems_of base dir has_prefix walk walk_elems node_at lookup_node
    loc_discrete ◌>>=◌ ◌>>◌ gets require call is_markdown ext has to_lower to_lower_rune encode
    encode_rune stat stat_elems list list_entries list_entry less_entry entry_is_dir read_dir
    children_of below? sort_entries insert_entry sort_by insert_by lt_bytes
listed = refl

list-IsShown_example :
    (des : List (Bytes × Node)) × (resolve lister.resolver tree root ≡ ok listing.path)
    × (raw (read_dir tree listing.path) ≡ ok des)
    × All (ComesFrom ascii lister tree root des) listing.entries
    × All
        (λ de.
          IsLeftOut ascii lister tree root de ⊎ Lists ascii lister tree root de listing.entries)
        des
    × IsOrdered ascii listing.entries
list-IsShown_example = list-IsShown ascii lister root tree listing listed
