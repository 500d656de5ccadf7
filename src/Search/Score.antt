-- ===== src/Search/Score.antt =====
-- `scoreDoc` of internal/search/search.go: how well a document matches a lower-case query.
pub mod Tiers
use mdtree.Prelude.{
  ℕ, ◌+◌, ◌/◌, Bytes, bytes_eq, Bool, true, false, List, [], ◌∷◌, Option, none, some, length, ltb,
  ◌==◌, if◌then◌else◌,
}
use mdtree.Prelude.Int.{ℤ, pos, sub_ℕ}
use mdtree.Text.{has_prefix, contains, index, runes}
use mdtree.Search.Index.{Doc}

unfoldable pub length_penalty : Bytes → ℕ
length_penalty s = let p = length s / 4 in if ltb 120 p then 120 else p

-- The loop of `subsequence`; the first list is what of the needle is left.
unfoldable pub subsequence_runes : List ℕ → List ℕ → Bool
subsequence_runes [] hs = true
subsequence_runes (n ∷ ns) [] = false
subsequence_runes (n ∷ ns) (h ∷ hs) = subsequence_runes (if h == n then ns else n ∷ ns) hs

unfoldable pub subsequence : Bytes → Bytes → Bool
subsequence needle haystack = subsequence_runes (runes needle) (runes haystack)

-- `strings.Index`, where the substring is there.
abbrev pub index_or_zero : Option ℕ → ℕ
index_or_zero none = 0
index_or_zero (some i) = i

-- The score, or `none` where nothing matches.
unfoldable pub score_doc : Bytes → Doc → Option ℤ
score_doc q d =
    if bytes_eq d.lower_name q
    then some (pos 1000)
    else if has_prefix d.lower_name q
    then some (sub_ℕ 850 (length_penalty d.lower_name))
    else if contains d.lower_name q
    then some (sub_ℕ 650 (index_or_zero (index d.lower_name q) + length_penalty d.lower_name))
    else if contains d.lower_path q
    then some (sub_ℕ 450 (length_penalty d.lower_path))
    else if subsequence q d.lower_name
    then some (sub_ℕ 300 (length_penalty d.lower_name))
    else if subsequence q d.lower_path
    then some (sub_ℕ 150 (length_penalty d.lower_path))
    else none
