-- ===== src/Tests/Writes.antt =====
-- Atomic writes that fail and that succeed.
use mdtree.Prelude.{
  true, false, has, Bytes, bytes, bytes_discrete, ℕ_discrete, ◌≡◌, ◌≢◌, refl, [], ◌∷◌, take,
}
use mdtree.Result.{ok, err}
use mdtree.Tests.Sample.{tree, ascii, root}
use mdtree.FilePath.{
  join, base, ext, rel, rel_elems, dir, clean, clean_elems, clean_step, render, join_slash, is_abs,
  elems, elems_of, split_slash,
}
use mdtree.Fs.Node.{
  Fs, Loc, at_write, eio, walk, walk_elems, node_at, lookup_node, loc_discrete, put, delete,
  remove_node,
}
use mdtree.Fs.Reads.{
  locate, locate_elems, stat, stat_elems, read_dir, children_of, below?, sort_entries,
}
use mdtree.Fs.Writes.{temp_name, create_temp, write_string, rename_at, rename_file_at, remove_at}
use mdtree.Fs.Writes
use mdtree.Files.Op.{◌>>=◌, ◌>>◌, gets, require, call}
use mdtree.Text.{
  is_blank, contains_byte, has_prefix, runes, runes_skip, decode_rune, is_space_rune, to_lower,
  to_lower_rune, encode, encode_rune,
}
use mdtree.Text.Strings.{all_space}
use mdtree.Files.Markdown.{is_markdown}
use mdtree.Files.Resolver.{
  Resolver, resolve, new_resolver, within, absolute, check_links, eval_symlinks, eval_symlinks_loop,
  eval_links, rejoin,
}
use mdtree.Files.Manager
use mdtree.Files.Manager.{
  FileInfo, fill_temp, write_file_atomic, save, create, read, delete_dir, resolve_path, info_of,
  file_info_of,
}
use mdtree.Files.Manager.Saved.{Saved, save-Saved}
use mdtree.Files.Manager.Created.{Created, create-Created}
use mdtree.Files.Manager.Directory.{NewDir, mkdir-NewDir}
use mdtree.Files.Manager.Renamed.{Renamed, rename-Renamed}
use mdtree.Files.Manager.Removed.{Removed, delete-Removed, delete_dir-Removed}
use mdtree.Files.Manager.Atomic.{write_file_atomic-err}

-- The device is full after one byte.
abbrev full : Fs
full = record tree { fault = at_write 1 }

abbrev target : Bytes
target = bytes "/srv/b.md"

abbrev place : Loc
place = bytes "srv" ∷ bytes "b.md" ∷ []

failed : (write_file_atomic target (bytes "new") full).0 ≡ err eio
unfolding write_file_atomic fill_temp create_temp write_string temp_name Writes.rename rename_at
    rename_file_at Writes.remove remove_at locate locate_elems walk walk_elems node_at lookup_node
    loc_discrete put delete remove_node dir clean clean_elems clean_step render join_slash is_abs
    elems elems_of split_slash bytes_discrete ℕ_discrete take
failed = refl

write_file_atomic-err_example :
    node_at (write_file_atomic target (bytes "new") full).1 place ≡ node_at full place
write_file_atomic-err_example = write_file_atomic-err target (bytes "new") full eio place failed

abbrev resolver : Resolver
resolver = new_resolver root false

root_is_abs : is_abs root ≡ true
unfolding is_abs
root_is_abs = refl

abbrev saved_info : FileInfo
saved_info = record { path = target; name = bytes "b.md"; size = 3; mod_time = 9 }

saved : (save ascii resolver (bytes "b.md") (bytes "new") tree).0 ≡ ok saved_info
unfolding write_file_atomic fill_temp create_temp write_string temp_name Writes.rename rename_at
    rename_file_at Writes.remove remove_at locate locate_elems walk walk_elems node_at lookup_node
    loc_discrete put delete remove_node dir clean clean_elems clean_step render join_slash is_abs
    elems elems_of split_slash bytes_discrete ℕ_discrete take resolve new_resolver is_blank
    all_space contains_byte runes runes_skip decode_rune is_space_rune within absolute check_links
    eval_symlinks eval_symlinks_loop eval_links rejoin join rel rel_elems base has_prefix ◌>>=◌ ◌>>◌
    gets require call is_markdown ext has to_lower to_lower_rune encode encode_rune stat stat_elems
    resolve_path save info_of file_info_of
saved = refl

save-Saved_example :
    Saved ascii resolver
      (bytes "b.md")
      (bytes "new")
      tree
      (save ascii resolver (bytes "b.md") (bytes "new") tree).1
save-Saved_example =
    save-Saved ascii root false (bytes "b.md") (bytes "new") tree saved_info root_is_abs saved

abbrev made_info : FileInfo
made_info = record { path = bytes "/srv/n/new.md"; name = bytes "new.md"; size = 1; mod_time = 9 }

-- The directory is made on the way.
created : (create ascii resolver (bytes "n/new.md") (bytes "x") tree).0 ≡ ok made_info
unfolding write_file_atomic fill_temp create_temp write_string temp_name Writes.rename rename_at
    rename_file_at Writes.remove remove_at locate locate_elems walk walk_elems node_at lookup_node
    loc_discrete put delete remove_node dir clean clean_elems clean_step render join_slash is_abs
    elems elems_of split_slash bytes_discrete ℕ_discrete take resolve new_resolver is_blank
    all_space contains_byte runes runes_skip decode_rune is_space_rune within absolute check_links
    eval_symlinks eval_symlinks_loop eval_links rejoin join rel rel_elems base has_prefix ◌>>=◌ ◌>>◌
    gets require call is_markdown ext has to_lower to_lower_rune encode encode_rune stat stat_elems
    resolve_path create info_of file_info_of Writes.mkdir_all Writes.mkdir_from Writes.mkdir
created = refl

create-Created_example :
    Created ascii resolver
      (bytes "n/new.md")
      (bytes "x")
      tree
      (create ascii resolver (bytes "n/new.md") (bytes "x") tree).1
create-Created_example =
    create-Created ascii root false (bytes "n/new.md") (bytes "x") tree made_info root_is_abs
      created

abbrev moved_info : FileInfo
moved_info = record { path = bytes "/srv/n/c.md"; name = bytes "c.md"; size = 2; mod_time = 2 }

moved : (Manager.rename ascii resolver (bytes "b.md") (bytes "n/c.md") tree).0 ≡ ok moved_info
unfolding Writes.rename rename_at rename_file_at locate locate_elems walk walk_elems node_at
    lookup_node loc_discrete put delete remove_node dir clean clean_elems clean_step render
    join_slash is_abs elems elems_of split_slash bytes_discrete ℕ_discrete take resolve new_resolver
    is_blank all_space contains_byte runes runes_skip decode_rune is_space_rune within absolute
    check_links eval_symlinks eval_symlinks_loop eval_links rejoin join rel rel_elems base
    has_prefix ◌>>=◌ ◌>>◌ gets require call is_markdown ext has to_lower to_lower_rune encode
    encode_rune stat stat_elems resolve_path Manager.rename info_of file_info_of Writes.mkdir_all
    Writes.mkdir_from Writes.mkdir
moved = refl

rename-Renamed_example :
    Renamed ascii resolver
      (bytes "b.md")
      (bytes "n/c.md")
      tree
      (Manager.rename ascii resolver (bytes "b.md") (bytes "n/c.md") tree).1
rename-Renamed_example =
    rename-Renamed ascii root false (bytes "b.md") (bytes "n/c.md") tree moved_info root_is_abs
      moved

-- The parent is made too.
dir_made : (Manager.mkdir resolver (bytes "n/d") tree).0 ≡ ok tt
unfolding locate locate_elems walk walk_elems node_at lookup_node loc_discrete put dir clean
    clean_elems clean_step render join_slash is_abs elems elems_of split_slash bytes_discrete
    ℕ_discrete take resolve new_resolver is_blank all_space contains_byte runes runes_skip
    decode_rune is_space_rune within absolute check_links eval_symlinks eval_symlinks_loop
    eval_links rejoin join rel rel_elems base has_prefix ◌>>=◌ ◌>>◌ gets require call stat
    stat_elems Manager.mkdir Writes.mkdir_all Writes.mkdir_from Writes.mkdir
dir_made = refl

mkdir-NewDir_example :
    NewDir resolver (bytes "n/d") tree (Manager.mkdir resolver (bytes "n/d") tree).1
mkdir-NewDir_example = mkdir-NewDir root false (bytes "n/d") tree root_is_abs dir_made

deleted : (Manager.delete ascii resolver (bytes "b.md") tree).0 ≡ ok tt
unfolding write_file_atomic fill_temp create_temp write_string temp_name Writes.rename rename_at
    rename_file_at Writes.remove remove_at locate locate_elems walk walk_elems node_at lookup_node
    loc_discrete put delete remove_node dir clean clean_elems clean_step render join_slash is_abs
    elems elems_of split_slash bytes_discrete ℕ_discrete take resolve new_resolver is_blank
    all_space contains_byte runes runes_skip decode_rune is_space_rune within absolute check_links
    eval_symlinks eval_symlinks_loop eval_links rejoin join rel rel_elems base has_prefix ◌>>=◌ ◌>>◌
    gets require call is_markdown ext has to_lower to_lower_rune encode encode_rune stat stat_elems
    resolve_path Manager.delete
deleted = refl

delete-Removed_example :
    (abs : Bytes) × (resolve resolver tree (bytes "b.md") ≡ ok abs)
    × (is_markdown ascii abs ≡ true)
    × Removed resolver
        (bytes "b.md")
        false
        tree
        (Manager.delete ascii resolver (bytes "b.md") tree).1
delete-Removed_example = delete-Removed ascii resolver (bytes "b.md") tree deleted

dir_deleted : (delete_dir resolver (bytes "Docs") tree).0 ≡ ok tt
unfolding write_file_atomic fill_temp create_temp write_string temp_name Writes.rename rename_at
    rename_file_at Writes.remove remove_at locate locate_elems walk walk_elems node_at lookup_node
    loc_discrete put delete remove_node dir clean clean_elems clean_step render join_slash is_abs
    elems elems_of split_slash bytes_discrete ℕ_discrete take resolve new_resolver is_blank
    all_space contains_byte runes runes_skip decode_rune is_space_rune within absolute check_links
    eval_symlinks eval_symlinks_loop eval_links rejoin join rel rel_elems base has_prefix ◌>>=◌ ◌>>◌
    gets require call is_markdown ext has to_lower to_lower_rune encode encode_rune stat stat_elems
    resolve_path delete_dir read_dir children_of below? sort_entries
dir_deleted = refl

delete_dir-Removed_example :
    (resolve resolver tree (bytes "Docs") ≢ ok resolver.root)
    × Removed resolver (bytes "Docs") true tree (delete_dir resolver (bytes "Docs") tree).1
delete_dir-Removed_example = delete_dir-Removed resolver (bytes "Docs") tree dir_deleted
