-- ===== src/Tests/Files.antt =====
-- Files: resolving, listing, and refused requests.
use mdtree.Prelude.{
  List, ◌||◌, Bytes, bytes, ◌≡◌, refl, ap, ℕ, arith, true, false, [], ◌∷◌, bytes_discrete,
  ℕ_discrete,
}
use mdtree.Result.{ok, err}
use mdtree.Tests.Sample.{root, tree}
use mdtree.Files.Resolver.Rounds.{Run, eval_symlinks-Run}
use mdtree.Files.Resolver.Accepts.{resolve-Under, resolve-outside_root}
use mdtree.Files.Resolver.Within.{Under}
use mdtree.FilePath.{
  slash, is_abs, clean, join, split_slash, clean_elems, clean_step, render, join_slash, rel,
  rel_elems, elems, elems_of, base, dir,
}
use mdtree.FilePath.Clean.{parts, rooted, parts-IsElem}
use mdtree.Fs.Node.{walk, walk_elems, node_at, lookup_node, loc_discrete}
use mdtree.Text.Strings.{all_space}
use mdtree.Text.{is_blank, contains_byte, has_prefix, runes, runes_skip, decode_rune, is_space_rune}
use mdtree.Files.Error.{outside_root}
use mdtree.Files.Resolver.{
  resolve, new_resolver, within, absolute, check_links, eval_symlinks, eval_symlinks_loop,
  eval_links, rejoin,
}
use mdtree.Files.Resolver.Confined.{IsConfined, StaysBelow, resolve-IsConfined, resolve-StaysBelow}

root_abs : is_abs root ≡ true
unfolding is_abs
root_abs = refl

resolved : resolve (new_resolver root false) tree (bytes "in/new.md") ≡ ok (bytes "/srv/in/new.md")
unfolding resolve new_resolver is_blank all_space contains_byte runes runes_skip decode_rune
    is_space_rune bytes_discrete ℕ_discrete within absolute check_links eval_symlinks
    eval_symlinks_loop eval_links rejoin is_abs clean join split_slash clean_elems clean_step render
    join_slash rel rel_elems elems elems_of base dir has_prefix walk walk_elems node_at lookup_node
    loc_discrete
resolved = refl

escaped : resolve (new_resolver root false) tree (bytes "out/x.md") ≡ err outside_root
unfolding resolve new_resolver is_blank all_space contains_byte runes runes_skip decode_rune
    is_space_rune bytes_discrete ℕ_discrete within absolute check_links eval_symlinks
    eval_symlinks_loop eval_links rejoin is_abs clean join split_slash clean_elems clean_step render
    join_slash rel rel_elems elems elems_of base dir has_prefix walk walk_elems node_at lookup_node
    loc_discrete
escaped = refl

-- Followed, the link out of the root is accepted.
followed :
    resolve (new_resolver root true) tree (bytes "/srv/./out//x.md") ≡ ok (bytes "/srv/out/x.md")
unfolding resolve new_resolver is_blank all_space contains_byte runes runes_skip decode_rune
    is_space_rune bytes_discrete ℕ_discrete within absolute check_links eval_symlinks
    eval_symlinks_loop eval_links rejoin is_abs clean join split_slash clean_elems clean_step render
    join_slash rel rel_elems elems elems_of base dir has_prefix walk walk_elems node_at lookup_node
    loc_discrete
followed = refl

resolve-IsConfined_example : IsConfined (parts root) (bytes "/srv/in/new.md")
resolve-IsConfined_example =
    resolve-IsConfined root false tree (bytes "in/new.md") (bytes "/srv/in/new.md") root_abs
      resolved

resolve-StaysBelow_example :
    (names : List Bytes) × (bytes "/srv/in/new.md" ≡ rooted names)
    × StaysBelow tree (parts root) names
resolve-StaysBelow_example =
    resolve-StaysBelow root tree (bytes "in/new.md") (bytes "/srv/in/new.md") root_abs resolved

plain : is_blank (bytes "/srv/./out//x.md") || contains_byte (bytes "/srv/./out//x.md") 0 ≡ false
unfolding is_blank all_space contains_byte runes runes_skip decode_rune is_space_rune
plain = refl

plain_outside :
    is_blank (bytes "/srv/../etc/x.md") || contains_byte (bytes "/srv/../etc/x.md") 0 ≡ false
unfolding is_blank all_space contains_byte runes runes_skip decode_rune is_space_rune
plain_outside = refl

starts_at_top : (p : Bytes) → is_abs (slash ∷ p) ≡ true
unfolding is_abs
starts_at_top p = refl

below_root : Under (parts root) (parts (bytes "/srv/./out//x.md"))
unfolding parts bytes_discrete
below_root = (bytes "out" ∷ bytes "x.md" ∷ [], refl)

abbrev first_byte : List Bytes → ℕ
first_byte ((c ∷ e) ∷ es) = c
first_byte _ = 0

beside_root : ¬ Under (parts root) (parts (bytes "/srv/../etc/x.md"))
unfolding parts bytes_discrete
beside_root (k, e) = omega (arith, ap first_byte e)

resolve-Under_example :
    resolve (new_resolver root true) tree (bytes "/srv/./out//x.md")
    ≡ ok (clean (bytes "/srv/./out//x.md"))
resolve-Under_example =
    resolve-Under root tree (bytes "/srv/./out//x.md") root_abs (starts_at_top _) plain below_root

resolve-outside_root_example :
    resolve (new_resolver root true) tree (bytes "/srv/../etc/x.md") ≡ err outside_root
resolve-outside_root_example =
    resolve-outside_root root true tree (bytes "/srv/../etc/x.md") root_abs (starts_at_top _)
      plain_outside beside_root

eval_symlinks-Run_example :
    Run tree
      (rooted (parts (bytes "/srv/in/new.md")))
      []
      (eval_symlinks tree (rooted (parts (bytes "/srv/in/new.md"))))
eval_symlinks-Run_example =
    eval_symlinks-Run tree (parts (bytes "/srv/in/new.md")) (parts-IsElem (bytes "/srv/in/new.md"))
