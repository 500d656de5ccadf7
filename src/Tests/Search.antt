-- ===== src/Tests/Search.antt =====
-- The index, its build, and queries.
use mathlib.Core.List.Perm
use mdtree.Prelude.{
  inl, inr, Bytes, bytes, bytes_eq, bytes_discrete, ℕ_discrete, has, ◌≡◌, ◌≤◌, refl, true, false,
  [], ◌∷◌, some, All, length, List, take,
}
use mdtree.Prelude.Assoc.{Assoc, lookup, insert}
use mdtree.Prelude.Int.{pos}
use mdtree.Prelude.Sort.{IsSortedBy, sort_by, insert_by}
use mdtree.Tests.Sample.{ascii}
use mdtree.FilePath.{
  join, base, ext, clean, clean_elems, clean_step, split_slash, join_slash, render, is_abs,
}
use mdtree.Text.{
  to_lower, trim_space, has_prefix, contains, index, runes, runes_skip, decode_rune, to_lower_rune,
  encode, encode_rune, is_space_rune, lt_bytes,
}
use mdtree.Files.Markdown.{is_markdown}
use mdtree.Search.Index.{Doc, new_doc, Index}
use mdtree.Search.Index.Updates.{
  IsWellFormed, Update, added, renamed, removed, updates, is_indexed, is_there, updates-is_indexed,
}
use mdtree.Search.Build.{
  leaf, branch, nil, cons, Found, found, walk_root, walk_tree, walk_trees, visit_file, skips, build,
}
use mdtree.Search.Build.Visible.{
  VisibleFrom, holds, build-IsWellFormed, build-VisibleFrom, VisibleFrom-build,
}
use mdtree.Search.Score.{score_doc, length_penalty, subsequence, subsequence_runes}
use mdtree.Search.Query.{search, effective_limit, less_hit, collect}
use mdtree.Search.Query.Order.{search-perm}
use mdtree.Search.Query.Answers.{IsHitOf, search-IsSortedBy}
use mdtree.Search.Query.Best.{IsAnswered, hit_of, search-IsAnswered}

abbrev empty_index : Index
empty_index = record {
  root = bytes "/srv";
  ignore = bytes "node_modules" ∷ [];
  max_files = 100;
  docs = [];
  built_at = 0;
  last_build = 0;
}

-- A note at the root, one below an ignored directory, and one below a directory with a text file.
abbrev notes : Found
notes = found (
    branch (bytes "srv") true (
      cons (leaf (bytes "a.md")) (
        cons (branch (bytes "node_modules") true (cons (leaf (bytes "b.md")) nil)) (
          cons
            (branch (bytes "Docs") true
              (cons (leaf (bytes "c.txt")) (cons (leaf (bytes "d.MD")) nil)))
            nil))))

abbrev deep : Bytes
deep = bytes "/srv/Docs/d.MD"

build-IsWellFormed_example :
    IsWellFormed ascii (build ascii empty_index notes 5 7 9).2.docs
    × (length (build ascii empty_index notes 5 7 9).2.docs ≤ 100)
build-IsWellFormed_example = build-IsWellFormed ascii empty_index notes 5 7 9

deep_is_held : holds ascii empty_index deep (build ascii empty_index notes 5 7 9).2.docs ≡ true
unfolding build walk_root walk_tree walk_trees visit_file skips insert lookup is_markdown ext
    to_lower to_lower_rune encode encode_rune runes runes_skip decode_rune is_space_rune has_prefix
    bytes_discrete ℕ_discrete has new_doc base join clean clean_elems clean_step split_slash
    join_slash render is_abs
deep_is_held = refl

build-VisibleFrom_example : VisibleFrom ascii empty_index notes deep
build-VisibleFrom_example = build-VisibleFrom ascii empty_index notes 5 7 9 deep deep_is_held

not_cut : (walk_root ascii empty_index notes).stopped ≡ false
unfolding walk_root walk_tree walk_trees visit_file skips insert lookup is_markdown ext to_lower
    to_lower_rune encode encode_rune runes runes_skip decode_rune is_space_rune has_prefix
    bytes_discrete ℕ_discrete has new_doc base join clean clean_elems clean_step split_slash
    join_slash render is_abs
not_cut = refl

deep_is_visible : VisibleFrom ascii empty_index notes deep
deep_is_visible = build-VisibleFrom ascii empty_index notes 5 7 9 deep deep_is_held

VisibleFrom-build_example :
    holds ascii empty_index deep (build ascii empty_index notes 5 7 9).2.docs ≡ true
VisibleFrom-build_example =
    VisibleFrom-build ascii empty_index notes 5 7 9 deep not_cut deep_is_visible

-- Newest first: the second note moves, the first goes away.
abbrev changes : List Update
changes =
    removed (bytes "/srv/a.md")
    ∷ renamed (bytes "/srv/b.md") (bytes "/srv/c.md")
    ∷ added (bytes "/srv/b.md")
    ∷ added (bytes "/srv/a.md")
    ∷ []

updates-is_indexed_example :
    is_there (lookup (bytes "/srv/c.md") (updates ascii changes empty_index).docs)
    ≡ is_indexed ascii changes (is_there (lookup (bytes "/srv/c.md") [])) (bytes "/srv/c.md")
updates-is_indexed_example = updates-is_indexed ascii changes empty_index (bytes "/srv/c.md")

abbrev entry : Bytes → Bytes × Doc
entry p = (p, new_doc ascii p)

abbrev two_docs : Assoc Doc
two_docs = entry (bytes "/srv/one.md") ∷ entry (bytes "/srv/on/two.md") ∷ []

abbrev turned : Assoc Doc
turned = entry (bytes "/srv/on/two.md") ∷ entry (bytes "/srv/one.md") ∷ []

abbrev filled : Index
filled = record empty_index { docs = two_docs }

search-perm_example :
    search ascii (bytes " On ") (pos 5) filled
    ≡ search ascii (bytes " On ") (pos 5) (record filled { docs = turned })
search-perm_example =
    search-perm ascii (bytes " On ") (pos 5) filled turned
      (Perm.swap (entry (bytes "/srv/on/two.md")) (entry (bytes "/srv/one.md")) [])
      (refl, (refl, tt))

-- The name that starts with the query comes before the path that contains it.
answers :
    search ascii (bytes " On ") (pos 5) filled
    ≡ record { name = bytes "one.md"; path = bytes "/srv/one.md"; score = pos 849 }
      ∷ record { name = bytes "two.md"; path = bytes "/srv/on/two.md"; score = pos 447 }
      ∷ []
unfolding search trim_space to_lower to_lower_rune encode encode_rune runes runes_skip decode_rune
    is_space_rune has_prefix bytes_discrete ℕ_discrete has new_doc base score_doc length_penalty
    subsequence subsequence_runes index contains collect less_hit sort_by insert_by take
    effective_limit lt_bytes
answers = refl

search-IsSortedBy_example :
    All
      (IsHitOf (to_lower ascii (trim_space (bytes " On "))) two_docs)
      (search ascii (bytes " On ") (pos 1) filled)
    × IsSortedBy less_hit (search ascii (bytes " On ") (pos 1) filled)
    × (length (search ascii (bytes " On ") (pos 1) filled) ≤ effective_limit (pos 1))
search-IsSortedBy_example = search-IsSortedBy ascii (bytes " On ") (pos 1) filled

not_blank : bytes_eq (to_lower ascii (trim_space (bytes " On "))) [] ≡ false
unfolding trim_space to_lower to_lower_rune encode encode_rune runes runes_skip decode_rune
    is_space_rune has_prefix bytes_discrete ℕ_discrete has new_doc base score_doc length_penalty
    subsequence subsequence_runes index contains collect less_hit sort_by insert_by take
    effective_limit lt_bytes
not_blank = refl

abbrev second : Bytes × Doc
second = (bytes "/srv/on/two.md", new_doc ascii (bytes "/srv/on/two.md"))

matched : score_doc (to_lower ascii (trim_space (bytes " On "))) second.1 ≡ some (pos 447)
unfolding trim_space to_lower to_lower_rune encode encode_rune runes runes_skip decode_rune
    is_space_rune has_prefix bytes_discrete ℕ_discrete has new_doc base score_doc length_penalty
    subsequence subsequence_runes index contains
matched = refl

-- The limit of one hit leaves this one out.
search-IsAnswered_example :
    IsAnswered
      (effective_limit (pos 1))
      (hit_of second.1 (pos 447))
      (search ascii (bytes " On ") (pos 1) filled)
search-IsAnswered_example =
    search-IsAnswered ascii (bytes " On ") (pos 1) filled second (pos 447) not_blank
      (inr (inl refl)) matched
