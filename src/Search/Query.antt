-- ===== src/Search/Query.antt =====
-- `Search` of internal/search/search.go: the best matches of a query, best first.
pub mod Order
pub mod Answers
pub mod Best
use mdtree.Prelude.{
  ℕ, zero, suc, Bytes, bytes_eq, Bool, ◌||◌, List, [], ◌∷◌, Option, none, some, length, take, ltb,
  ◌==◌, not, if◌then◌else◌,
}
use mdtree.Prelude.Assoc.{Assoc}
use mdtree.Prelude.Int.{ℤ, pos, negsuc, ltb_ℤ}
use mdtree.Prelude.Sort.{sort_by}
use mdtree.Text.{CaseTable, to_lower, trim_space, lt_bytes}
use mdtree.Search.Index.{Doc, Index}
use mdtree.Search.Score.{score_doc}

-- `Result` in the source.
pub record Hit : Type 0 where
  pub name : Bytes
  pub path : Bytes
  pub score : ℤ

abbrev pub default_limit : ℕ
default_limit = 50

unfoldable pub effective_limit : ℤ → ℕ
effective_limit (pos zero) = default_limit
effective_limit (pos (suc n)) = suc n
effective_limit (negsuc n) = default_limit

-- Scores differ where one is below the other.
unfoldable pub less_hit : Hit → Hit → Bool
less_hit a b =
    if ltb_ℤ b.score a.score || ltb_ℤ a.score b.score
    then ltb_ℤ b.score a.score
    else if not (length a.path == length b.path)
    then ltb (length a.path) (length b.path)
    else lt_bytes a.path b.path

abbrev pub cons_hit : Doc → Option ℤ → List Hit → List Hit
cons_hit d none hits = hits
cons_hit d (some score) hits = record { name = d.name; path = d.path; score = score } ∷ hits

-- The loop over the documents, in the order in which the map yields them.
unfoldable pub collect : Bytes → Assoc Doc → List Hit
collect q [] = []
collect q ((k, d) ∷ docs) = cons_hit d (score_doc q d) (collect q docs)

unfoldable pub search : CaseTable → Bytes → ℤ → Index → List Hit
search u query limit idx =
    let q = to_lower u (trim_space query) in
    if bytes_eq q []
    then []
    else take (effective_limit limit) (sort_by less_hit (collect q idx.docs))
