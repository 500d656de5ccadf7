-- ===== src/Files/Resolver/Within.antt =====
-- The test `within` of the resolver against the elements of the two paths.
use mathlib.Core.List.{append-nil}
use mathlib.Core.Bool.{true≢false}
use mdtree.Prelude.{
  Bytes, bytes_eq, bytes_discrete, ◌≡◌, ◌≢◌, Bool, inl, inr, sym, ap, ◌∙◌, refl, true, false, not,
  ◌&&◌, ◌||◌, List, [], ◌∷◌, ◌++◌, Option, none, some, arith, All, if◌then◌else◌,
}
use mdtree.FilePath.{dot, is_abs, clean, rel, rel_elems, elems, join_slash}
use mdtree.FilePath.Split.{IsElem}
use mdtree.FilePath.Clean.{rooted, clean-rooted, elems-rooted}
use mdtree.FilePath.Rel.{climbs, climbs-join_slash, rel_elems-append, rel_elems_cases}
use mdtree.Files.Resolver.{Resolver, within, within_rel}

-- `es` names something at or below `rs`.
abbrev pub Under : List Bytes → List Bytes → Type 0
Under rs es = (k : List Bytes) × (es ≡ rs ++ k)

pub All-left {ℓ κ} : {A : Type ℓ} (P : A → Type κ) (xs ys : List A) → All P (xs ++ ys) → All P xs
All-left P [] ys h = tt
All-left P (x ∷ xs) ys h = (h.0, All-left P xs ys h.1)

pub All-right {ℓ κ} : {A : Type ℓ} (P : A → Type κ) (xs ys : List A) → All P (xs ++ ys) → All P ys
All-right P [] ys h = h
All-right P (x ∷ xs) ys h = All-right P xs ys h.1

pub rooted-injective :
    (rs es : List Bytes) → All IsElem rs → All IsElem es → rooted rs ≡ rooted es → rs ≡ es
rooted-injective rs es h k p = sym (elems-rooted rs h) ∙ ap elems p ∙ elems-rooted es k

-- `rel` over the cleaned paths and their elements.
abbrev rel_cleaned : Bytes → Bytes → List Bytes → List Bytes → Option Bytes
rel_cleaned b t bs ts =
    if bytes_eq b t
    then some dot
    else if not (is_abs b) && is_abs t || is_abs b && not (is_abs t)
    then none
    else rel_elems bs ts

rel-cleaned :
    (p q : Bytes) → rel p q ≡ rel_cleaned (clean p) (clean q) (elems (clean p)) (elems (clean q))
unfolding rel
rel-cleaned p q = refl

rel-rooted :
    (rs es : List Bytes)
    → All IsElem rs
    → All IsElem es
    → rel (rooted rs) (rooted es)
      ≡ (if bytes_eq (rooted rs) (rooted es) then some dot else rel_elems rs es)
unfolding is_abs
rel-rooted rs es h k =
    rw (rel-cleaned, clean-rooted rs h, clean-rooted es k, elems-rooted rs h, elems-rooted es k)

within_rel-climbs : (x : Bytes) → within_rel (some x) ≡ not (climbs x)
within_rel-climbs x = ground arith

within-rel :
    (r : Resolver) (p : Bytes)
    → within r p ≡ (if bytes_eq p r.root then true else within_rel (rel r.root p))
unfolding within
within-rel r p = refl

abbrev within_elems : List Bytes → List Bytes → Bool
within_elems rs es =
    if bytes_eq (rooted es) (rooted rs)
    then true
    else within_rel (if bytes_eq (rooted rs) (rooted es) then some dot else rel_elems rs es)

within-rooted :
    (r : Resolver) (rs es : List Bytes)
    → r.root ≡ rooted rs
    → All IsElem rs
    → All IsElem es
    → within r (rooted es) ≡ within_elems rs es
within-rooted r rs es root h a = rw (within-rel, root, rel-rooted rs es h a)

-- What is at or below the root passes the test.
pub Under-within :
    (r : Resolver) (rs k : List Bytes)
    → r.root ≡ rooted rs
    → All IsElem rs
    → All IsElem (rs ++ k)
    → within r (rooted (rs ++ k)) ≡ true
Under-within r rs k root h a =
    within-rooted r rs (rs ++ k) root h a
    ∙ ground (
      arith,
      rel_elems-append rs k,
      climbs-join_slash k (All-right IsElem rs k a),
      within_rel-climbs (join_slash k),
    )

escapes :
    (rs es : List Bytes) (out : Bytes)
    → rel_elems rs es ≡ some out
    → climbs out ≡ true
    → rooted es ≢ rooted rs
    → within_elems rs es ≡ false
escapes rs es out e up other = ground (arith, within_rel-climbs out)

-- What passes the test is at or below the root.
pub within-Under :
    (r : Resolver) (rs es : List Bytes)
    → r.root ≡ rooted rs
    → All IsElem rs
    → All IsElem es
    → within r (rooted es) ≡ true
    → Under rs es
within-Under r rs es root h a w = elim (rel_elems_cases rs es h) [
  | inl under ↦ under
  | inr (out, e, up) ↦ elim (bytes_discrete (rooted es) (rooted rs)) [
    | yes same ↦ ([], rooted-injective es rs a h same ∙ sym (append-nil rs))
    | no other ↦
        absurd (true≢false (sym w ∙ within-rooted r rs es root h a ∙ escapes rs es out e up other))
  ]
]
