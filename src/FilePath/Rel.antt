-- ===== src/FilePath/Rel.antt =====
-- When the relative path between two lists of elements climbs out of the base.
use mathlib.Core.List.{map}
use mdtree.Prelude.{
  Bytes, bytes_eq, bytes_discrete, ◌≡◌, ◌⊎◌, inl, inr, refl, Bool, true, false, ◌||◌, List, [], ◌∷◌,
  ◌++◌, some, arith, All,
}
use mdtree.Text.{has_prefix}
use mdtree.FilePath.{slash, dotdot, join_slash, rel_elems}
use mdtree.FilePath.Split.{IsElem}

-- The test that the resolver makes on a relative path.
abbrev pub climbs : Bytes → Bool
climbs r = bytes_eq r dotdot || has_prefix r (dotdot ++ (slash ∷ []))

elem-climbs : (e : Bytes) → IsElem e → climbs e ≡ false
unfolding has_prefix bytes_discrete
elem-climbs [] h = ground arith
elem-climbs (a ∷ []) h = ground arith
elem-climbs (a ∷ b ∷ []) h = ground arith
elem-climbs (a ∷ b ∷ c ∷ e) h = ground arith

elem_slash-climbs : (e s : Bytes) → IsElem e → climbs (e ++ (slash ∷ s)) ≡ false
unfolding has_prefix bytes_discrete
elem_slash-climbs [] s h = ground arith
elem_slash-climbs (a ∷ []) s h = ground arith
elem_slash-climbs (a ∷ b ∷ []) s h = ground arith
elem_slash-climbs (a ∷ b ∷ c ∷ e) s h = ground arith

-- A path made of plain elements does not climb.
pub climbs-join_slash : (es : List Bytes) → All IsElem es → climbs (join_slash es) ≡ false
unfolding join_slash
climbs-join_slash [] h = unfold has_prefix bytes_discrete in refl
climbs-join_slash (e ∷ []) h = elem-climbs e h.0
climbs-join_slash (e ∷ f ∷ es) h = elem_slash-climbs e (join_slash (f ∷ es)) h.0

climbs_up : (es : List Bytes) → climbs (join_slash (dotdot ∷ es)) ≡ true
unfolding join_slash has_prefix bytes_discrete
climbs_up [] = refl
climbs_up (e ∷ es) = refl

pub rel_elems-append : (rs k : List Bytes) → rel_elems rs (rs ++ k) ≡ some (join_slash k)
unfolding rel_elems
rel_elems-append [] k = refl
rel_elems-append (r ∷ rs) k = ground (arith, rel_elems-append rs k)

-- Either the target is below the base, or the relative path climbs.
pub rel_elems_cases :
    (rs ts : List Bytes)
    → All IsElem rs
    → ((k : List Bytes) × (ts ≡ rs ++ k))
      ⊎ ((r : Bytes) × (rel_elems rs ts ≡ some r) × (climbs r ≡ true))
unfolding rel_elems
rel_elems_cases [] ts h = inl (ts, refl)
rel_elems_cases (r ∷ rs) [] h =
    inr (join_slash (map (λ _. dotdot) (r ∷ rs)), ground arith, climbs_up (map (λ _. dotdot) rs))
rel_elems_cases (r ∷ rs) (t ∷ ts) h = elim (bytes_discrete r t) [
  | yes same ↦ elim (rel_elems_cases rs ts h.1) [
    | inl (k, e) ↦ inl (k, cc)
    | inr (out, e, up) ↦ inr (out, ground arith, up)
  ]
  | no other ↦ inr (
    join_slash (map (λ _. dotdot) (r ∷ rs) ++ (t ∷ ts)),
    ground arith,
    climbs_up (map (λ _. dotdot) rs ++ (t ∷ ts)),
  )
]
