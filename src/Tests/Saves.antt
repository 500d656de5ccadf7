-- ===== src/Tests/Saves.antt =====
-- A save over the API, and the file that is read after it.
use mdtree.Prelude.{
  Bytes, bytes, bytes_discrete, ℕ_discrete, has, ◌≡◌, refl, arith, [], ◌∷◌, take, false,
}
use mdtree.Tests.Sample.{root}
use mdtree.Tests.Server.{handler, world, post, sessions}
use mdtree.FilePath.{
  join, base, ext, rel, rel_elems, dir, clean, clean_elems, clean_step, render, join_slash, is_abs,
  elems, elems_of, split_slash,
}
use mdtree.Fs.Node.{
  Loc, walk, walk_elems, node_at, lookup_node, loc_discrete, put, delete, remove_node,
}
use mdtree.Fs.Reads.{locate, locate_elems, stat, stat_elems}
use mdtree.Fs.Writes.{temp_name, create_temp, write_string, rename_at, rename_file_at, remove_at}
use mdtree.Fs.Writes
use mdtree.Files.Op.{◌>>=◌, ◌>>◌, gets, require, call}
use mdtree.Text.{
  is_blank, contains_byte, has_prefix, runes, runes_skip, decode_rune, is_space_rune, to_lower,
  to_lower_rune, encode, encode_rune,
}
use mdtree.Text.Strings.{all_space}
use mdtree.Files.Markdown.{is_markdown}
use mdtree.Files.Resolver.{
  resolve, new_resolver, within, absolute, check_links, eval_symlinks, eval_symlinks_loop,
  eval_links, rejoin,
}
use mdtree.Files.Manager.{
  FileInfo, fill_temp, write_file_atomic, save, resolve_path, info_of, file_info_of,
}
use mdtree.Api.Handler.{
  info_value, content_value, with_files, write_json, write_error, write_file_error, decode_json,
}
use mdtree.Api.Files
use mdtree.Api.Endpoint.{Endpoint, endpoint}
use mdtree.Api.Endpoint.ReadBack.{save_file-get_file}

abbrev note : Bytes
note = bytes "b.md"

abbrev place : Loc
place = bytes "srv" ∷ note ∷ []

saved : (endpoint handler Endpoint.save_file post (sessions, world)).0.status ≡ 200
unfolding write_file_atomic fill_temp create_temp write_string temp_name Writes.rename rename_at
    rename_file_at Writes.remove remove_at locate locate_elems walk walk_elems node_at lookup_node
    loc_discrete put delete remove_node dir clean clean_elems clean_step render join_slash is_abs
    elems elems_of split_slash bytes_discrete ℕ_discrete take resolve new_resolver is_blank
    all_space contains_byte runes runes_skip decode_rune is_space_rune within absolute check_links
    eval_symlinks eval_symlinks_loop eval_links rejoin join rel rel_elems base has_prefix ◌>>=◌ ◌>>◌
    gets require call is_markdown ext has to_lower to_lower_rune encode encode_rune stat stat_elems
    resolve_path save info_of file_info_of endpoint Files.save_file with_files decode_json
    write_json write_error write_file_error
saved = refl

save_file-get_file_example :
    (info : FileInfo) × ((endpoint handler Endpoint.save_file post (sessions, world)).0
      ≡ write_json handler 200 (info_value info))
    × ((endpoint handler Endpoint.get_file post
          (endpoint handler Endpoint.save_file post (sessions, world)).1).0
        ≡ write_json handler 200 (content_value (record { info = info; content = note })))
    × ((endpoint handler Endpoint.get_file post
          (endpoint handler Endpoint.save_file post (sessions, world)).1).1.1.fs
        ≡ (endpoint handler Endpoint.save_file post (sessions, world)).1.1.fs)
unfolding resolve new_resolver is_blank all_space contains_byte runes runes_skip decode_rune
    is_space_rune bytes_discrete ℕ_discrete within absolute check_links eval_symlinks
    eval_symlinks_loop eval_links rejoin is_abs clean join split_slash clean_elems clean_step render
    join_slash rel rel_elems elems elems_of base dir has_prefix walk walk_elems node_at lookup_node
    loc_discrete locate locate_elems decode_json
save_file-get_file_example =
    save_file-get_file handler root false post post sessions world (λ field. note)
      (bytes "/srv/b.md") place (bytes "hi") 2 refl refl refl refl refl refl refl
      (omega (arith, saved))
