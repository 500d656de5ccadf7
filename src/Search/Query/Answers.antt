-- ===== src/Search/Query/Answers.antt =====
-- The answers of a query: what they are drawn from, how they are ordered, and how many there are.
use mdtree.Prelude.{
  All-map, ℕ, zero, suc, ◌≤◌, Bytes, bytes_eq, ◌≡◌, ◌⊎◌, inl, inr, Bool-cases, refl, Bool, false,
  List, [], ◌∷◌, Option, none, some, arith, All, take, length, length-take,
}
use mdtree.Prelude.Assoc.{Assoc}
use mdtree.Prelude.Int.{ℤ}
use mdtree.Prelude.Sort.{sort_by, IsSortedBy, sort_by-IsSortedBy, All-sort_by}
use mdtree.Text.{CaseTable, to_lower, trim_space}
use mdtree.Search.Index.{Doc, Index}
use mdtree.Search.Score.{score_doc}
use mdtree.Search.Query.{Hit, less_hit, cons_hit, collect, search, effective_limit}
use mdtree.Search.Query.Order.{less_hit-StrictWeak}

-- The entry at some place of the map.
abbrev pub Holds : Bytes × Doc → Assoc Doc → Type 0
Holds e [] = ⊥
Holds e (f ∷ m) = (e ≡ f) ⊎ Holds e m

-- The hit stands for a document of the map, with the score that this has for the query.
pub record IsHitOf (q : Bytes) (m : Assoc Doc) (h : Hit) : Type 0 where
  pub entry : Bytes × Doc
  pub there : Holds entry m
  pub same_name : h.name ≡ entry.1.name
  pub same_path : h.path ≡ entry.1.path
  pub scored : score_doc q entry.1 ≡ some h.score

All-take : {A : Type 0} (P : A → Type 0) (n : ℕ) (xs : List A) → All P xs → All P (take n xs)
unfolding take
All-take P zero xs h = tt
All-take P (suc n) [] h = tt
All-take P (suc n) (x ∷ xs) h = (h.0, All-take P n xs h.1)

take-IsSortedBy :
    {A : Type 0} (less : A → A → Bool) (n : ℕ) (xs : List A)
    → IsSortedBy less xs
    → IsSortedBy less (take n xs)
unfolding take
take-IsSortedBy less zero xs h = tt
take-IsSortedBy less (suc n) [] h = tt
take-IsSortedBy less (suc n) (x ∷ xs) h =
    (All-take (λ y. less y x ≡ false) n xs h.0, take-IsSortedBy less n xs h.1)

later_hit :
    (q : Bytes) (e : Bytes × Doc) (m : Assoc Doc) (h : Hit) → IsHitOf q m h → IsHitOf q (e ∷ m) h
later_hit q e m h i = record {
  entry = i.entry;
  there = inr i.there;
  same_name = i.same_name;
  same_path = i.same_path;
  scored = i.scored;
}

collect-IsHitOf : (q : Bytes) (m : Assoc Doc) → All (IsHitOf q m) (collect q m)
unfolding collect
collect-IsHitOf q [] = tt
collect-IsHitOf q ((k, d) ∷ m) =
    by_score (score_doc q d) refl
      (All-map (later_hit q (k, d) m) (collect q m) (collect-IsHitOf q m))
  where
    by_score :
        (s : Option ℤ)
        → score_doc q d ≡ s
        → All (IsHitOf q ((k, d) ∷ m)) (collect q m)
        → All (IsHitOf q ((k, d) ∷ m)) (cons_hit d s (collect q m))
    by_score none e rest = rest
    by_score (some s) e rest = (
      record { entry = (k, d); there = inl refl; same_name = refl; same_path = refl; scored = e },
      rest,
    )

-- The answers to a query stand for documents of the index that match it, no later one precedes an
-- earlier one in the order of the results, and there are no more than the limit.
pub search-IsSortedBy :
    (u : CaseTable) (query : Bytes) (limit : ℤ) (idx : Index)
    → All (IsHitOf (to_lower u (trim_space query)) idx.docs) (search u query limit idx)
      × IsSortedBy less_hit (search u query limit idx)
      × (length (search u query limit idx) ≤ effective_limit limit)
unfolding search
search-IsSortedBy u query limit idx =
    let q = to_lower u (trim_space query) in
    elim (Bool-cases (bytes_eq q [])) [
      | inl e ↦ rw e (tt, tt, omega arith)
      | inr e ↦ rw e (
        All-take (IsHitOf q idx.docs) (effective_limit limit)
            (sort_by less_hit (collect q idx.docs))
            (All-sort_by less_hit (IsHitOf q idx.docs) (collect q idx.docs)
              (collect-IsHitOf q idx.docs)),
        take-IsSortedBy less_hit (effective_limit limit) (sort_by less_hit (collect q idx.docs))
            (sort_by-IsSortedBy less_hit less_hit-StrictWeak (collect q idx.docs)),
        omega (arith, length-take (effective_limit limit) (sort_by less_hit (collect q idx.docs))),
      )
    ]
