-- ===== src/Search/Query/Order.antt =====
-- The answers of a query: their order, and that it does not hang on the map's iteration.
use mathlib.Core.List.{Perm, Permᴰ}
use mathlib.Core.Logic.{∥∥₁_elim}
use mathlib.Core.Path.{subst, ap₂}
use mdtree.Prelude.{
  Bytes, bytes_eq, ◌≡◌, ◌⊎◌, ◌∙◌, sym, ap, refl, true, false, List, [], ◌∷◌, Option, none, some,
  arith, take, if◌then◌else◌,
}
use mdtree.Prelude.Assoc.{Assoc}
use mdtree.Prelude.Int.{ℤ, ltb_ℤ}
use mdtree.Prelude.Sort.{sort_by, insert_by, StrictWeak, insert_by_comm}
use mdtree.Text.{CaseTable, to_lower, trim_space}
use mdtree.Text.Strings.Order.{lt_bytes-asymm, lt_bytes-negtrans, lt_bytes-total}
use mdtree.Search.Index.Updates.{IsFiled}
use mdtree.Search.Index.{Doc, new_doc, Index}
use mdtree.Search.Score.{score_doc}
use mdtree.Search.Query.{Hit, less_hit, cons_hit, collect, search, effective_limit}

less_hit-asymm : (a b : Hit) → less_hit a b ≡ true → less_hit b a ≡ false
unfolding less_hit
less_hit-asymm a b h = ground (arith, lt_bytes-asymm a.path b.path)

less_hit-negtrans :
    (a b c : Hit) → less_hit a b ≡ false → less_hit b c ≡ false → less_hit a c ≡ false
unfolding less_hit
less_hit-negtrans a b c h k = ground (arith, lt_bytes-negtrans a.path b.path c.path)

pub less_hit-StrictWeak : StrictWeak less_hit
less_hit-StrictWeak = record { asymm = less_hit-asymm; negtrans = less_hit-negtrans }

eq_ℤ : (a b : ℤ) → ltb_ℤ a b ≡ false → ltb_ℤ b a ≡ false → a ≡ b
eq_ℤ a b h k = ground arith

-- Hits that neither precedes have one score and one path.
less_hit-total :
    (a b : Hit)
    → less_hit a b ≡ false
    → less_hit b a ≡ false
    → (a.score ≡ b.score) × (a.path ≡ b.path)
unfolding less_hit
less_hit-total a b h k = ground (arith, eq_ℤ a.score b.score, lt_bytes-total a.path b.path)

abbrev hit : Doc → ℤ → Hit
hit d score = record { name = d.name; path = d.path; score = score }

abbrev put_hit : Doc → Option ℤ → List Hit → List Hit
put_hit d none hits = hits
put_hit d (some score) hits = insert_by less_hit (hit d score) hits

abbrev ranked : Bytes → Assoc Doc → List Hit
ranked q m = sort_by less_hit (collect q m)

ranked-cons :
    (q : Bytes) (e : Bytes × Doc) (m : Assoc Doc)
    → ranked q (e ∷ m) ≡ put_hit e.1 (score_doc q e.1) (ranked q m)
unfolding collect sort_by
ranked-cons q (k, d) m = by_score (score_doc q d)
  where
    by_score :
        (s : Option ℤ)
        → sort_by less_hit (cons_hit d s (collect q m))
          ≡ put_hit d s (sort_by less_hit (collect q m))
    by_score none = refl
    by_score (some s) = refl

new_doc-path : (u : CaseTable) (p : Bytes) → (new_doc u p).path ≡ p
unfolding new_doc
new_doc-path u p = refl

same_doc :
    (u : CaseTable) (k j : Bytes) (d e : Doc)
    → d ≡ new_doc u k
    → e ≡ new_doc u j
    → d.path ≡ e.path
    → d ≡ e
same_doc u k j d e p q r = cc (new_doc-path u k, new_doc-path u j)

-- Two hits are ordered, or they are one.
hits_comparable :
    (u : CaseTable) (k j : Bytes) (d e : Doc) (a b : ℤ)
    → d ≡ new_doc u k
    → e ≡ new_doc u j
    → (hit d a ≡ hit e b)
      ⊎ ((less_hit (hit d a) (hit e b) ≡ true) ⊎ (less_hit (hit e b) (hit d a) ≡ true))
hits_comparable u k j d e a b p q =
    ground (arith, less_hit-total (hit d a) (hit e b), same_doc u k j d e)

put_hit_comm :
    (u : CaseTable) (k j : Bytes) (d e : Doc) (a b : Option ℤ) (hits : List Hit)
    → d ≡ new_doc u k
    → e ≡ new_doc u j
    → put_hit d a (put_hit e b hits) ≡ put_hit e b (put_hit d a hits)
put_hit_comm u k j d e none b hits p q = refl
put_hit_comm u k j d e (some a) none hits p q = refl
put_hit_comm u k j d e (some a) (some b) hits p q =
    insert_by_comm less_hit less_hit-StrictWeak (hit d a) (hit e b) hits
      (hits_comparable u k j d e a b p q)

IsFiled-perm : (u : CaseTable) {m m' : Assoc Doc} → Permᴰ m m' → IsFiled u m → IsFiled u m'
IsFiled-perm u Permᴰ.nil h = tt
IsFiled-perm u (Permᴰ.cons p r) h = (subst (λ e. e.1 ≡ new_doc u e.0) p h.0, IsFiled-perm u r h.1)
IsFiled-perm u (Permᴰ.swap p q) h =
    (subst (λ e. e.1 ≡ new_doc u e.0) q h.1.0, (subst (λ e. e.1 ≡ new_doc u e.0) p h.0, h.1.1))
IsFiled-perm u (Permᴰ.trans r s) h = IsFiled-perm u s (IsFiled-perm u r h)

ranked-two :
    (q : Bytes) (a b : Bytes × Doc) (m : Assoc Doc)
    → ranked q (a ∷ b ∷ m)
      ≡ put_hit a.1 (score_doc q a.1) (put_hit b.1 (score_doc q b.1) (ranked q m))
ranked-two q a b m =
    ranked-cons q a (b ∷ m) ∙ ap (put_hit a.1 (score_doc q a.1)) (ranked-cons q b m)

ranked-perm :
    (u : CaseTable) (q : Bytes) {m m' : Assoc Doc}
    → Permᴰ m m'
    → IsFiled u m
    → ranked q m ≡ ranked q m'
ranked-perm u q Permᴰ.nil h = refl
ranked-perm u q (Permᴰ.cons {a} {b} {l₁} {l₂} p r) h =
    ap (λ e. ranked q (e ∷ l₁)) p
    ∙ ranked-cons q b l₁
    ∙ ap (put_hit b.1 (score_doc q b.1)) (ranked-perm u q r h.1)
    ∙ sym (ranked-cons q b l₂)
ranked-perm u q (Permᴰ.swap {a} {b} {a'} {b'} {l} p r) h =
    ranked-two q a b l
    ∙ put_hit_comm u a.0 b.0 a.1 b.1 (score_doc q a.1) (score_doc q b.1) (ranked q l) h.0 h.1.0
    ∙ sym (ranked-two q b a l)
    ∙ ap₂ (λ x y. ranked q (x ∷ y ∷ l)) r p
ranked-perm u q (Permᴰ.trans r s) h = ranked-perm u q r h ∙ ranked-perm u q s (IsFiled-perm u r h)

hits_set : IsSet (List Hit)
hits_set = hlevel

-- Two maps with the same entries, in whatever order they are iterated, give one answer.
pub search-perm :
    (u : CaseTable) (query : Bytes) (limit : ℤ) (idx : Index) (docs : Assoc Doc)
    → Perm idx.docs docs
    → IsFiled u idx.docs
    → search u query limit idx ≡ search u query limit (record idx { docs = docs })
unfolding search
search-perm u query limit idx docs p h = ∥∥₁_elim p (hits_set _ _) λ r.
    ap
      (λ hits.
        if bytes_eq (to_lower u (trim_space query)) []
        then []
        else take (effective_limit limit) hits)
      (ranked-perm u (to_lower u (trim_space query)) r h)
