-- ===== src/FilePath/Clean.antt =====
-- An absolute clean path: its form, and what cleaning does to it.
use mathlib.Core.List.{reverse, reverse_aux, reverse-cons, append_assoc, append-nil}
use mdtree.Prelude.{
  Bytes, bytes_discrete, ◌≡◌, ◌≡⟨◌⟩◌, ◌∎, sym, refl, ap, true, List, [], ◌∷◌, ◌++◌, arith, All,
}
use mdtree.FilePath.{
  slash, split_slash, join_slash, is_abs, clean_step, clean_elems, clean, elems_of, elems,
}
use mdtree.FilePath.Split.{NoSlash, IsElem, split_slash-join_slash, split_slash-NoSlash}

-- The absolute path with the given elements.
abbrev pub rooted : List Bytes → Bytes
rooted es = slash ∷ join_slash es

pub All-reverse_aux {ℓ κ} :
    {A : Type ℓ} (P : A → Type κ) (xs ys : List A) → All P xs → All P ys → All P (reverse_aux xs ys)
All-reverse_aux P [] ys _ k = k
All-reverse_aux P (x ∷ xs) ys h k = All-reverse_aux P xs (x ∷ ys) h.1 (h.0, k)

clean_step-IsElem :
    (stack : List Bytes) (e : Bytes)
    → All IsElem stack
    → NoSlash e
    → All IsElem (clean_step true stack e)
unfolding clean_step
clean_step-IsElem [] e h k = ground arith
clean_step-IsElem (top ∷ stack) e h k = ground arith

clean_elems-IsElem :
    (stack es : List Bytes)
    → All IsElem stack
    → All NoSlash es
    → All IsElem (clean_elems true stack es)
unfolding clean_elems
clean_elems-IsElem stack [] h k = All-reverse_aux IsElem stack [] h tt
clean_elems-IsElem stack (e ∷ es) h k =
    clean_elems-IsElem (clean_step true stack e) es (clean_step-IsElem stack e h k.0) k.1

clean_step_of_IsElem :
    (stack : List Bytes) (e : Bytes) → IsElem e → clean_step true stack e ≡ e ∷ stack
unfolding clean_step
clean_step_of_IsElem stack e h = ground arith

clean_elems_of_IsElem :
    (stack es : List Bytes) → All IsElem es → clean_elems true stack es ≡ reverse stack ++ es
unfolding clean_elems
clean_elems_of_IsElem stack [] h = sym (append-nil _)
clean_elems_of_IsElem stack (e ∷ es) h =
    clean_elems true (clean_step true stack e) es
    ≡⟨ ap (λ s. clean_elems true s es) (clean_step_of_IsElem stack e h.0) ⟩
      clean_elems true (e ∷ stack) es
    ≡⟨ clean_elems_of_IsElem (e ∷ stack) es h.1 ⟩ reverse (e ∷ stack) ++ es
    ≡⟨ (simp (reverse-cons, append_assoc)) ⟩ reverse stack ++ e ∷ es ∎

pub All-NoSlash : (es : List Bytes) → All IsElem es → All NoSlash es
All-NoSlash [] h = tt
All-NoSlash (e ∷ es) h = (h.0.3, All-NoSlash es h.1)

-- The elements that cleaning leaves of an absolute path.
unfoldable pub parts : Bytes → List Bytes
unfolding clean_elems split_slash
parts p = clean_elems true [] (split_slash p)

pub parts-IsElem : (p : Bytes) → All IsElem (parts p)
unfolding parts
parts-IsElem p = clean_elems-IsElem [] (split_slash p) tt (split_slash-NoSlash p)

pub clean-eq-rooted : (p : Bytes) → is_abs p ≡ true → clean p ≡ rooted (parts p)
unfolding clean parts
clean-eq-rooted p h = rw h

-- Splitting what was joined behind a leading slash gives the elements back.
split_slash-rooted :
    (es : List Bytes) → All IsElem es → clean_elems true [] (split_slash (rooted es)) ≡ es
unfolding split_slash clean_elems bytes_discrete
split_slash-rooted [] h = unfold join_slash in refl
split_slash-rooted (e ∷ es) h =
    rw (split_slash-join_slash e es (All-NoSlash (e ∷ es) h)) (clean_elems_of_IsElem [] (e ∷ es) h)

-- Cleaning a rendered list of elements changes nothing.
pub clean-rooted : (es : List Bytes) → All IsElem es → clean (rooted es) ≡ rooted es
unfolding clean
clean-rooted es h = ap rooted (split_slash-rooted es h)

elems_of-IsElem : (es : List Bytes) → All IsElem es → elems_of es ≡ es
unfolding elems_of
elems_of-IsElem [] h = refl
elems_of-IsElem (e ∷ es) h = ground (arith, elems_of-IsElem es h.1)

pub elems-rooted : (es : List Bytes) → All IsElem es → elems (rooted es) ≡ es
unfolding elems split_slash bytes_discrete
elems-rooted [] h = unfold join_slash in refl
elems-rooted (e ∷ es) h =
    rw (split_slash-join_slash e es (All-NoSlash (e ∷ es) h)) (elems_of-IsElem (e ∷ es) h)

pub elems-clean : (p : Bytes) → is_abs p ≡ true → elems (clean p) ≡ parts p
elems-clean p h = rw (clean-eq-rooted p h) (elems-rooted (parts p) (parts-IsElem p))

-- `filepath.Clean` is idempotent on absolute paths.
pub clean_idempotent : (p : Bytes) → is_abs p ≡ true → clean (clean p) ≡ clean p
clean_idempotent p h = rw (clean-eq-rooted p h) (clean-rooted (parts p) (parts-IsElem p))

pub is_abs-clean : (p : Bytes) → is_abs p ≡ true → is_abs (clean p) ≡ true
is_abs-clean p h = rw (clean-eq-rooted p h) (unfold is_abs in refl)
