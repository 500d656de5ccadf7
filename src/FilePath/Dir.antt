-- ===== src/FilePath/Dir.antt =====
-- The parent and the last element of a clean absolute path.
use mathlib.Core.List.{reverse, reverse-cons, reverse-append, reverse-reverse, append_assoc}
use mdtree.Prelude.{
  ℕ, Bytes, bytes_discrete, ◌≢◌, ◌≡◌, ◌∙◌, ◌≡⟨◌⟩◌, ◌∎, sym, refl, ap, List, [], ◌∷◌, ◌++◌, arith,
  All, ◌==◌, if◌then◌else◌,
}
use mdtree.FilePath.{slash, join_slash, clean, drop_slashes, last_elem, base, skip_elem, dir}
use mdtree.FilePath.Split.{NoSlash, IsElem}
use mdtree.FilePath.Clean.{All-reverse_aux, rooted, clean-rooted}
use mdtree.FilePath.Join.{clean-rooted-slash}

skip_elem-append : (x y : Bytes) → NoSlash x → skip_elem (x ++ (slash ∷ y)) ≡ slash ∷ y
unfolding skip_elem
skip_elem-append [] y h = refl
skip_elem-append (c ∷ x) y h = ground (arith, skip_elem-append x y h.1)

last_elem-append : (cur x y : Bytes) → NoSlash y → last_elem cur (x ++ (slash ∷ y)) ≡ y
unfolding last_elem
last_elem-append cur [] y h = last_elem-NoSlash y y h
  where
    last_elem-NoSlash : (cur y : Bytes) → NoSlash y → last_elem cur y ≡ cur
    last_elem-NoSlash cur [] h = refl
    last_elem-NoSlash cur (c ∷ y) h = ground (arith, last_elem-NoSlash cur y h.1)
last_elem-append cur (c ∷ x) y h =
    last_elem-append (if c == slash then x ++ (slash ∷ y) else cur) x y h

-- What stands before the last slash.
abbrev before_last : List Bytes → Bytes
before_last [] = []
before_last (e ∷ es) = rooted (e ∷ es)

join_slash-concat :
    (f : Bytes) (es : List Bytes) (e : Bytes)
    → join_slash ((f ∷ es) ++ (e ∷ [])) ≡ join_slash (f ∷ es) ++ (slash ∷ e)
unfolding join_slash
join_slash-concat f [] e = refl
join_slash-concat f (g ∷ es) e =
    rw (join_slash-concat g es e) (sym (append_assoc f (slash ∷ join_slash (g ∷ es)) (slash ∷ e)))

rooted-concat :
    (es : List Bytes) (e : Bytes) → rooted (es ++ (e ∷ [])) ≡ before_last es ++ (slash ∷ e)
rooted-concat [] e = unfold join_slash in refl
rooted-concat (f ∷ es) e = ap (◌∷◌ slash) (join_slash-concat f es e)

clean-before_last :
    (es : List Bytes) → All IsElem es → clean (before_last es ++ (slash ∷ [])) ≡ rooted es
clean-before_last [] h = rw (sym join_slash-nil) (clean-rooted [] tt)
  where
    join_slash-nil : join_slash [] ≡ []
    join_slash-nil = unfold join_slash in refl
clean-before_last (e ∷ es) h = clean-rooted-slash (e ∷ es) h

reverse-slash : (x e : Bytes) → reverse (x ++ (slash ∷ e)) ≡ reverse e ++ (slash ∷ reverse x)
reverse-slash x e = simp (reverse-append, reverse-cons, append_assoc)

skip-reverse :
    (x e : Bytes) → NoSlash e → reverse (skip_elem (reverse (x ++ (slash ∷ e)))) ≡ x ++ (slash ∷ [])
skip-reverse x e h =
    reverse (skip_elem (reverse (x ++ (slash ∷ e))))
    ≡⟨ ap (λ y. reverse (skip_elem y)) (reverse-slash x e) ⟩
      reverse (skip_elem (reverse e ++ (slash ∷ reverse x)))
    ≡⟨ ap reverse (skip_elem-append (reverse e) (reverse x) no_slash) ⟩ reverse (slash ∷ reverse x)
    ≡⟨ reverse-cons slash (reverse x) ⟩ reverse (reverse x) ++ (slash ∷ [])
    ≡⟨ ap (λ y. y ++ (slash ∷ [])) (reverse-reverse x) ⟩ x ++ (slash ∷ []) ∎
  where
    no_slash : NoSlash (reverse e)
    no_slash = All-reverse_aux _ e [] h tt

-- The directory of a clean absolute path drops the last element.
pub dir-rooted :
    (es : List Bytes) (e : Bytes)
    → All IsElem es
    → IsElem e
    → dir (rooted (es ++ (e ∷ []))) ≡ rooted es
unfolding dir
dir-rooted es e h k =
    ap (λ p. clean (reverse (skip_elem (reverse p)))) (rooted-concat es e)
    ∙ ap clean (skip-reverse (before_last es) e k.3)
    ∙ clean-before_last es h

pub dir-top : dir (rooted []) ≡ rooted []
unfolding dir join_slash bytes_discrete
dir-top = refl

drop_slashes-append : (y z : Bytes) → y ≢ [] → NoSlash y → drop_slashes (y ++ z) ≡ y ++ z
unfolding drop_slashes
drop_slashes-append [] z h k = absurd (h refl)
drop_slashes-append (c ∷ y) z h k = ground arith

reverse-ne-nil : (e : Bytes) → e ≢ [] → reverse e ≢ []
reverse-ne-nil e h p = h (sym (reverse-reverse e) ∙ ap reverse p)

drop_slashes-reverse :
    (x e : Bytes)
    → IsElem e
    → reverse (drop_slashes (reverse (x ++ (slash ∷ e)))) ≡ x ++ (slash ∷ e)
drop_slashes-reverse x e k =
    ap (λ y. reverse (drop_slashes y)) (reverse-slash x e)
    ∙ ap reverse (
        drop_slashes-append (reverse e) (slash ∷ reverse x) (reverse-ne-nil e k.0)
          (All-reverse_aux _ e [] k.3 tt))
    ∙ ap reverse (sym (reverse-slash x e))
    ∙ reverse-reverse (x ++ (slash ∷ e))

base-cons :
    (c : ℕ) (s : Bytes)
    → reverse (drop_slashes (reverse (c ∷ s))) ≡ c ∷ s
    → base (c ∷ s) ≡ last_elem (c ∷ s) (c ∷ s)
unfolding base bytes_discrete
base-cons c s h = rw h refl

-- The base name of a clean absolute path is its last element.
pub base-rooted : (es : List Bytes) (e : Bytes) → IsElem e → base (rooted (es ++ (e ∷ []))) ≡ e
base-rooted es e k =
    let form = rooted-concat es e in
    base-cons slash (join_slash (es ++ (e ∷ []))) (
      ap (λ p. reverse (drop_slashes (reverse p))) form
      ∙ drop_slashes-reverse (before_last es) e k
      ∙ sym form)
    ∙ ap (last_elem (rooted (es ++ (e ∷ [])))) form
    ∙ last_elem-append (rooted (es ++ (e ∷ []))) (before_last es) e k.3
