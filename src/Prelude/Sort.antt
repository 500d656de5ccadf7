-- ===== src/Prelude/Sort.antt =====
-- `sort.Slice` with a `less` function, as the stable insertion that it is on short slices, and what
-- it guarantees of any `less` that is a strict weak order.
use mathlib.Core.List.{List, [], ◌∷◌, Perm}
use mathlib.Core.List.Perm
use mathlib.Core.Bool.{Bool, true, false}
use mathlib.Core.Path.{◌≡◌}
use native.Mathlib.Omega.{arith}
use mdtree.Prelude.Lists.{All, Any}
use mdtree.Prelude.Tests.{if◌then◌else◌, Bool-cases}
use mathlib.Core.Logic.{inl, inr, ◌⊎◌}

module _ {A : Type 0} (less : A → A → Bool) where
  unfoldable pub insert_by : A → List A → List A
  insert_by x [] = x ∷ []
  insert_by x (y ∷ ys) = let rest = insert_by x ys in if less y x then y ∷ rest else x ∷ y ∷ ys

  unfoldable pub sort_by : List A → List A
  unfolding insert_by
  sort_by [] = []
  sort_by (x ∷ xs) = insert_by x (sort_by xs)

  insert_by-perm : (x : A) (ys : List A) → Perm (insert_by x ys) (x ∷ ys)
  unfolding insert_by
  insert_by-perm x [] = Perm.refl (x ∷ [])
  insert_by-perm x (y ∷ ys) = elim (Bool-cases (less y x)) [
    | inl e ↦ rw e (Perm.trans (Perm.cons y (insert_by-perm x ys)) (Perm.swap x y ys))
    | inr e ↦ rw e (Perm.refl (x ∷ y ∷ ys))
  ]

  -- Sorting loses and invents nothing.
  pub sort_by-perm : (xs : List A) → Perm (sort_by xs) xs
  unfolding sort_by
  sort_by-perm [] = Perm.refl []
  sort_by-perm (x ∷ xs) = Perm.trans (insert_by-perm x (sort_by xs)) (Perm.cons x (sort_by-perm xs))

  insert_by_self : (P : A → Type 0) (x : A) (ys : List A) → P x → Any P (insert_by x ys)
  unfolding insert_by
  insert_by_self P x [] h = inl h
  insert_by_self P x (y ∷ ys) h = elim (Bool-cases (less y x)) [
    | inl b ↦ rw b (inr (insert_by_self P x ys h))
    | inr b ↦ rw b (inl h)
  ]

  insert_by_others : (P : A → Type 0) (x : A) (ys : List A) → Any P ys → Any P (insert_by x ys)
  unfolding insert_by
  insert_by_others P x [] m = absurd m
  insert_by_others P x (y ∷ ys) m = elim (Bool-cases (less y x)) [
    | inl b ↦ elim m [ inl h ↦ rw b (inl h) | inr m' ↦ rw b (inr (insert_by_others P x ys m')) ]
    | inr b ↦ rw b (inr m)
  ]

  -- What some element has, some element of the sorted list has.
  pub Any-sort_by : (P : A → Type 0) (xs : List A) → Any P xs → Any P (sort_by xs)
  unfolding sort_by
  Any-sort_by P [] m = absurd m
  Any-sort_by P (x ∷ xs) (inl h) = insert_by_self P x (sort_by xs) h
  Any-sort_by P (x ∷ xs) (inr m) = insert_by_others P x (sort_by xs) (Any-sort_by P xs m)

  -- No later element is less than an earlier one.
  abbrev pub IsSortedBy : List A → Type 0
  IsSortedBy [] = Unit
  IsSortedBy (x ∷ xs) = All (λ y. less y x ≡ false) xs × IsSortedBy xs

  pub record StrictWeak : Type 0 where
    pub asymm : (a b : A) → less a b ≡ true → less b a ≡ false
    pub negtrans : (a b c : A) → less a b ≡ false → less b c ≡ false → less a c ≡ false

  All-insert_by : (P : A → Type 0) (x : A) (ys : List A) → P x → All P ys → All P (insert_by x ys)
  unfolding insert_by
  All-insert_by P x [] h k = (h, tt)
  All-insert_by P x (y ∷ ys) h k = elim (Bool-cases (less y x)) [
    | inl e ↦ rw e (k.0, All-insert_by P x ys h k.1)
    | inr e ↦ rw e (h, k)
  ]

  pub All-sort_by : (P : A → Type 0) (xs : List A) → All P xs → All P (sort_by xs)
  unfolding sort_by
  All-sort_by P [] h = tt
  All-sort_by P (x ∷ xs) h = All-insert_by P x (sort_by xs) h.0 (All-sort_by P xs h.1)

  module _ (law : StrictWeak) where
    All-negtrans :
        (x y : A) (ys : List A)
        → less y x ≡ false
        → All (λ z. less z y ≡ false) ys
        → All (λ z. less z x ≡ false) ys
    All-negtrans x y [] e h = tt
    All-negtrans x y (z ∷ ys) e h = (law.negtrans z y x h.0 e, All-negtrans x y ys e h.1)

    insert_by-IsSortedBy : (x : A) (ys : List A) → IsSortedBy ys → IsSortedBy (insert_by x ys)
    unfolding insert_by
    insert_by-IsSortedBy x [] h = (tt, tt)
    insert_by-IsSortedBy x (y ∷ ys) h = elim (Bool-cases (less y x)) [
      | inl e ↦ rw e (
        All-insert_by (λ z. less z y ≡ false) x ys (law.asymm y x e) h.0,
        insert_by-IsSortedBy x ys h.1,
      )
      | inr e ↦ rw e ((e, All-negtrans x y ys e h.0), h)
    ]

    pub sort_by-IsSortedBy : (xs : List A) → IsSortedBy (sort_by xs)
    unfolding sort_by
    sort_by-IsSortedBy [] = tt
    sort_by-IsSortedBy (x ∷ xs) = insert_by-IsSortedBy x (sort_by xs) (sort_by-IsSortedBy xs)

    -- Two elements that are comparable or equal can be inserted in either order.
    pub insert_by_comm :
        (x y : A) (ys : List A)
        → (x ≡ y) ⊎ ((less x y ≡ true) ⊎ (less y x ≡ true))
        → insert_by x (insert_by y ys) ≡ insert_by y (insert_by x ys)
    unfolding insert_by
    insert_by_comm x y [] c = ground (arith, law.asymm x y, law.asymm y x)
    insert_by_comm x y (z ∷ ys) c = ground (
      arith,
      law.asymm x y,
      law.asymm y x,
      law.negtrans z x y,
      law.negtrans z y x,
      law.negtrans x z y,
      law.negtrans y z x,
      law.negtrans x y z,
      law.negtrans y x z,
      law.asymm z x,
      law.asymm z y,
      law.asymm x z,
      law.asymm y z,
      insert_by_comm x y ys,
    )
