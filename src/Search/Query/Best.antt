-- ===== src/Search/Query/Best.antt =====
-- The matches that an answer leaves out.
use mdtree.Prelude.{
  ℕ, zero, suc, Bytes, bytes_eq, ◌≡◌, ◌⊎◌, inl, inr, sym, ap, ◌∙◌, refl, false, List, [], ◌∷◌,
  Option, none, some, All, Any, take, length,
}
use mdtree.Prelude.Assoc.{Assoc}
use mdtree.Prelude.Int.{ℤ}
use mdtree.Prelude.Sort.{sort_by, Any-sort_by, IsSortedBy, sort_by-IsSortedBy}
use mdtree.Text.{CaseTable, to_lower, trim_space}
use mdtree.Search.Index.{Doc, Index}
use mdtree.Search.Score.{score_doc}
use mdtree.Search.Query.{Hit, less_hit, cons_hit, collect, search, effective_limit}
use mdtree.Search.Query.Order.{less_hit-StrictWeak}
use mdtree.Search.Query.Answers.{Holds}

-- The hit that stands for a document with a score.
abbrev pub hit_of : Doc → ℤ → Hit
hit_of d score = record { name = d.name; path = d.path; score = score }

-- The hit is at some place of the list.
abbrev pub IsAmong : Hit → List Hit → Type 0
IsAmong h = Any (λ g. h ≡ g)

-- The hit is there, or the list is as long as the limit and the hit comes before none of its hits.
abbrev pub IsAnswered : ℕ → Hit → List Hit → Type 0
IsAnswered limit h gs = IsAmong h gs ⊎ ((length gs ≡ limit) × All (λ g. less_hit h g ≡ false) gs)

cons_hit-IsAmong :
    (h : Hit) (d : Doc) (s : Option ℤ) (hits : List Hit)
    → IsAmong h hits
    → IsAmong h (cons_hit d s hits)
cons_hit-IsAmong h d none hits m = m
cons_hit-IsAmong h d (some s) hits m = inr m

-- No document that matches is passed over.
collect-IsAmong :
    (q : Bytes) (e : Bytes × Doc) (m : Assoc Doc) (n : ℤ)
    → Holds e m
    → score_doc q e.1 ≡ some n
    → IsAmong (hit_of e.1 n) (collect q m)
unfolding collect
collect-IsAmong q e [] n h s = absurd h
collect-IsAmong q e ((k, d) ∷ m) n (inl p) s =
    rw (sym (ap (λ x. score_doc q x.1) p) ∙ s) (inl (ap (λ x. hit_of x.1 n) p))
collect-IsAmong q e ((k, d) ∷ m) n (inr h) s =
    cons_hit-IsAmong (hit_of e.1 n) d (score_doc q d) (collect q m) (collect-IsAmong q e m n h s)

sorted_before :
    (h : Hit) (g : Hit) (gs : List Hit)
    → All (λ y. less_hit y g ≡ false) gs
    → IsAmong h gs
    → less_hit h g ≡ false
sorted_before h g [] a m = absurd m
sorted_before h g (k ∷ gs) a (inl e) = ap (λ x. less_hit x g) e ∙ a.0
sorted_before h g (k ∷ gs) a (inr m) = sorted_before h g gs a.1 m

-- Of a sorted list, what is cut off comes before nothing that is kept.
take-IsAnswered :
    (limit : ℕ) (h : Hit) (gs : List Hit)
    → IsSortedBy less_hit gs
    → IsAmong h gs
    → IsAnswered limit h (take limit gs)
unfolding take
take-IsAnswered zero h gs o m = inr (refl, tt)
take-IsAnswered (suc n) h [] o m = absurd m
take-IsAnswered (suc n) h (g ∷ gs) o (inl e) = inl (inl e)
take-IsAnswered (suc n) h (g ∷ gs) o (inr m) = elim (take-IsAnswered n h gs o.1 m) [
  | inl m' ↦ inl (inr m')
  | inr (full, a) ↦ inr (ap suc full, (sorted_before h g gs o.0 m, a))
]

-- Nothing better is left out: for a query that is not blank, every document of the index that
-- matches it is among the answers, with its score, or there are as many answers as the limit allows
-- and the document comes before none of them in the order of the results.
pub search-IsAnswered :
    (u : CaseTable) (query : Bytes) (limit : ℤ) (idx : Index) (e : Bytes × Doc) (n : ℤ)
    → bytes_eq (to_lower u (trim_space query)) [] ≡ false
    → Holds e idx.docs
    → score_doc (to_lower u (trim_space query)) e.1 ≡ some n
    → IsAnswered (effective_limit limit) (hit_of e.1 n) (search u query limit idx)
unfolding search
search-IsAnswered u query limit idx e n some_query h s =
    let hits = collect (to_lower u (trim_space query)) idx.docs in
    rw some_query (
      take-IsAnswered (effective_limit limit) (hit_of e.1 n) (sort_by less_hit hits)
        (sort_by-IsSortedBy less_hit less_hit-StrictWeak hits)
        (Any-sort_by less_hit (λ g. hit_of e.1 n ≡ g) hits
          (collect-IsAmong (to_lower u (trim_space query)) e idx.docs n h s)))
