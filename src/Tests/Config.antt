-- ===== src/Tests/Config.antt =====
-- A start with a flag, a variable and no file.
use mdtree.Prelude.{
  Bytes, bytes, bytes_eq, bytes_discrete, ℕ_discrete, has, ◌≡◌, refl, true, [], none, Option,
  if◌then◌else◌,
}
use mdtree.Prelude.Int.{pos}
use mdtree.Result.{ok, err}
use mdtree.Tests.Sample.{ascii, root, tree}
use mdtree.FilePath.{
  is_abs, clean, join, split_slash, clean_elems, clean_step, render, join_slash, elems, elems_of,
}
use mdtree.Text.{
  runes, runes_skip, decode_rune, is_space_rune, to_lower, to_lower_rune, encode, encode_rune,
  trim_space,
}
use mdtree.Fs.Node.{enoent, walk, walk_elems, node_at, lookup_node, loc_discrete}
use mdtree.Fs.Reads.{stat, stat_elems}
use mdtree.Config.{
  Config, Env, Flags, default_config, configure, load, load_file, apply_env, apply_flags, normalize,
  validate, abs_path, atoi, digits,
}
use mdtree.Config.Usable.{IsUsable, configure-IsUsable, configure-precedence, FollowsOrder}

-- Nothing is in a file.
abbrev decode : Bytes → Config → Option Config
decode text cfg = none

abbrev env : Env
env name = if bytes_eq name (bytes "MDTREE_PORT") then bytes "9000" else []

abbrev flags : Flags
flags = record { host = []; port = pos 0; root = bytes "srv"; log_level = bytes " WARN" }

abbrev settled : Config
settled = record default_config {
  server = record { host = bytes "127.0.0.1"; port = pos 9000 };
  root = root;
  log = record default_config.log { level = bytes "warn" };
}

started :
    configure ascii decode env flags (bytes "/") (bytes "config.yaml") (err enoent) tree
    ≡ ok settled
unfolding configure load load_file apply_env apply_flags normalize validate abs_path atoi digits has
    trim_space runes runes_skip decode_rune is_space_rune to_lower to_lower_rune encode encode_rune
    bytes_discrete ℕ_discrete is_abs clean join split_slash clean_elems clean_step render join_slash
    elems elems_of walk walk_elems node_at lookup_node loc_discrete stat stat_elems
started = refl

top_is_abs : is_abs (bytes "/") ≡ true
unfolding is_abs
top_is_abs = refl

configure-IsUsable_example : IsUsable tree settled
configure-IsUsable_example =
    configure-IsUsable ascii decode env flags (bytes "/") (bytes "config.yaml") (err enoent) tree
      settled top_is_abs started

configure-precedence_example :
    (base : Config) × (load_file decode (bytes "config.yaml") (err enoent) ≡ ok base)
    × FollowsOrder ascii env flags (bytes "/") base settled
configure-precedence_example =
    configure-precedence ascii decode env flags (bytes "/") (bytes "config.yaml") (err enoent) tree
      settled started
