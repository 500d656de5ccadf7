-- ===== src/Files/Resolver.antt =====
-- `Resolver` of internal/files/path.go: user paths are cleaned and confined to a root.
pub mod Within
pub mod Links
pub mod Loop
pub mod Rounds
pub mod Confined
pub mod Accepts
pub mod Shaped
use mdtree.Prelude.{
  ℕ, zero, suc, Bytes, bytes_eq, Bool, true, false, not, ◌&&◌, ◌||◌, List, [], ◌∷◌, ◌++◌, Option,
  none, some, length, if◌then◌else◌,
}
use mdtree.Result.{Result, ok, err, ◌>>=◌}
use mdtree.Text.{is_blank, contains_byte, has_prefix}
use mdtree.FilePath.{slash, dotdot, join_slash, is_abs, clean, join, base, dir, rel, elems}
use mdtree.Fs.Node.{enoent, Fs, walk}
use mdtree.Fs.Reads.{IoResult}
use mdtree.Files.Error.{Error, invalid_path, outside_root, not_found}

pub record Resolver : Type 0 where
  pub root : Bytes
  pub follow_symlinks : Bool

unfoldable pub new_resolver : Bytes → Bool → Resolver
new_resolver root follow = record { root = clean root; follow_symlinks = follow }

-- The limit of `filepath.EvalSymlinks`.
abbrev pub go_links : ℕ
go_links = 255

-- `filepath.EvalSymlinks` of an absolute path.
unfoldable pub eval_links : Fs → Bytes → IoResult Bytes
eval_links fs p = do l ← walk go_links fs [] (elems p); ok (slash ∷ join_slash l)

abbrev within_rel : Option Bytes → Bool
within_rel none = false
within_rel (some r) = not (bytes_eq r dotdot) && not (has_prefix r (dotdot ++ (slash ∷ [])))

unfoldable pub within : Resolver → Bytes → Bool
within r p = if bytes_eq p r.root then true else within_rel (rel r.root p)

-- `for i := len(trailing) - 1; i >= 0; i--`: the last name that was set aside comes first.
unfoldable pub rejoin : Bytes → List Bytes → Bytes
rejoin resolved [] = resolved
rejoin resolved (t ∷ trailing) = rejoin (join resolved t) trailing

-- The loop of `evalSymlinks`. `trailing` has its newest name at the head; the number bounds the
-- rounds, and is large enough where `eval_symlinks` calls it (Resolver/Rounds).
unfoldable pub eval_symlinks_loop : ℕ → Fs → Bytes → List Bytes → Result Error Bytes
eval_symlinks_loop zero fs cur trailing = err not_found
eval_symlinks_loop (suc rounds) fs cur trailing =
    let again = eval_symlinks_loop rounds fs (dir cur) (base cur ∷ trailing) in
    elim (eval_links fs cur) [
      | ok resolved ↦ ok (clean (rejoin resolved trailing))
      | err enoent ↦ if bytes_eq (dir cur) cur then err not_found else again
      | err _ ↦ err not_found
    ]

-- A path has fewer elements than bytes, and each round drops one.
unfoldable pub eval_symlinks : Fs → Bytes → Result Error Bytes
eval_symlinks fs p = eval_symlinks_loop (suc (length p)) fs p []

abbrev guard : Bool → Error → Result Error (Unit {0})
guard true e = ok tt
guard false e = err e

-- The path made absolute and cleaned, before any check against the root.
unfoldable pub absolute : Resolver → Bytes → Bytes
absolute r p = clean (if is_abs p then p else join r.root p)

-- What the symbolic links on the way may do.
unfoldable pub check_links : Resolver → Fs → Bytes → Result Error (Unit {0})
check_links r fs abs = if r.follow_symlinks then ok tt else elim (eval_symlinks fs abs) [
  | err e ↦ err e
  | ok resolved ↦ guard (within r resolved) outside_root
]

unfoldable pub resolve : Resolver → Fs → Bytes → Result Error Bytes
resolve r fs p =
    if is_blank p || contains_byte p 0
    then err invalid_path
    else if within r (absolute r p)
    then (elim (check_links r fs (absolute r p)) [ err e ↦ err e | ok _ ↦ ok (absolute r p) ])
    else err outside_root
