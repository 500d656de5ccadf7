-- ===== src/FilePath/Join.antt =====
-- Joining a name to a clean absolute path.
use mathlib.Core.List.{reverse, reverse-cons, append_assoc, append-nil}
use mdtree.Prelude.{
  ℕ, Bytes, bytes_eq, bytes_discrete, Bool-cases, inl, inr, ◌≡◌, ◌≢◌, ◌∙◌, ◌≡⟨◌⟩◌, ◌∎, sym, refl,
  ap, true, List, [], ◌∷◌, ◌++◌, ◌||◌, arith, All, All-append, ◌==◌, if◌then◌else◌,
}
use mdtree.FilePath.{
  slash, dot, dotdot, split_slash, cons_head, join_slash, is_abs, clean_step, clean_elems, clean,
  join, elems_of, elems,
}
use mdtree.FilePath.Split.{IsElem, split_slash_self, split_slash-join_slash}
use mdtree.FilePath.Clean.{All-NoSlash, parts, rooted, elems-rooted, clean-eq-rooted}

split_slash-ne-nil : (s : Bytes) → split_slash s ≢ []
unfolding split_slash
split_slash-ne-nil [] = cc
split_slash-ne-nil (c ∷ s) = cons_case c (split_slash s)
  where
    cons_case : (c : ℕ) (es : List Bytes) → (if c == slash then [] ∷ es else cons_head c es) ≢ []
    cons_case c [] = ground arith
    cons_case c (e ∷ es) = ground arith

cons_case :
    (c : ℕ) (xs ys : List Bytes)
    → xs ≢ []
    → (if c == slash then [] ∷ (xs ++ ys) else cons_head c (xs ++ ys))
      ≡ (if c == slash then [] ∷ xs else cons_head c xs) ++ ys
cons_case c [] ys h = absurd (h refl)
cons_case c (x ∷ xs) ys h = ground arith

split_slash-append : (a b : Bytes) → split_slash (a ++ (slash ∷ b)) ≡ split_slash a ++ split_slash b
unfolding split_slash
split_slash-append [] b = refl
split_slash-append (c ∷ a) b =
    rw (split_slash-append a b) (cons_case c (split_slash a) (split_slash b) (split_slash-ne-nil a))

elems_of-append : (xs ys : List Bytes) → elems_of (xs ++ ys) ≡ elems_of xs ++ elems_of ys
unfolding elems_of
elems_of-append [] ys = refl
elems_of-append (x ∷ xs) ys = ground (arith, elems_of-append xs ys)

pub elems-append : (a b : Bytes) → elems (a ++ (slash ∷ b)) ≡ elems a ++ elems b
unfolding elems
elems-append a b = rw (split_slash-append a b) (elems_of-append (split_slash a) (split_slash b))

-- Without "..", cleaning only drops the empty elements and the dots.
abbrev NoDotdot : List Bytes → Type 0
NoDotdot = All (λ e. e ≢ dotdot)

clean_step_of_NoDotdot :
    (stack : List Bytes) (e : Bytes)
    → e ≢ dotdot
    → clean_step true stack e ≡ (if bytes_eq e [] || bytes_eq e dot then stack else e ∷ stack)
unfolding clean_step
clean_step_of_NoDotdot stack e h = ground arith

clean_elems_of_NoDotdot :
    (stack es : List Bytes) → NoDotdot es → clean_elems true stack es ≡ reverse stack ++ elems_of es
unfolding clean_elems elems_of
clean_elems_of_NoDotdot stack [] h = sym (append-nil _)
clean_elems_of_NoDotdot stack (e ∷ es) h =
    rw (clean_step_of_NoDotdot stack e h.0) (elim (Bool-cases (bytes_eq e [] || bytes_eq e dot)) [
      | inl skipped ↦ rw skipped (clean_elems_of_NoDotdot stack es h.1)
      | inr kept ↦
          rw kept (clean_elems_of_NoDotdot (e ∷ stack) es h.1 ∙ (simp (reverse-cons, append_assoc)))
    ])

IsElem-NoDotdot : (es : List Bytes) → All IsElem es → NoDotdot es
IsElem-NoDotdot [] h = tt
IsElem-NoDotdot (e ∷ es) h = (h.0.2, IsElem-NoDotdot es h.1)

split_slash-rooted : (es : List Bytes) → All IsElem es → NoDotdot (split_slash (rooted es))
unfolding split_slash bytes_discrete
split_slash-rooted [] h = unfold join_slash in ground arith
split_slash-rooted (e ∷ es) h =
    rw (split_slash-join_slash e es (All-NoSlash (e ∷ es) h))
      (ground arith, IsElem-NoDotdot (e ∷ es) h)

parts-eq-elems : (p : Bytes) → NoDotdot (split_slash p) → parts p ≡ elems p
unfolding parts elems
parts-eq-elems p h = clean_elems_of_NoDotdot [] (split_slash p) h

elems-elem : (e : Bytes) → IsElem e → elems e ≡ e ∷ []
unfolding elems
elems-elem e h = rw (split_slash_self e h.3) (ground arith)

-- Cleaning a path and a further part, neither with "..".
clean-slash :
    (es : List Bytes) (b : Bytes)
    → All IsElem es
    → NoDotdot (split_slash b)
    → clean (rooted es ++ (slash ∷ b)) ≡ rooted (es ++ elems b)
clean-slash es b h k =
    clean (rooted es ++ (slash ∷ b))
    ≡⟨ clean-eq-rooted _ (unfold is_abs in refl) ⟩ rooted (parts (rooted es ++ (slash ∷ b)))
    ≡⟨ ap rooted (parts-eq-elems _ no_dotdot) ⟩ rooted (elems (rooted es ++ (slash ∷ b)))
    ≡⟨ ap rooted (elems-append (rooted es) b) ⟩ rooted (elems (rooted es) ++ elems b)
    ≡⟨ ap (λ x. rooted (x ++ elems b)) (elems-rooted es h) ⟩ rooted (es ++ elems b) ∎
  where
    no_dotdot : NoDotdot (split_slash (rooted es ++ (slash ∷ b)))
    no_dotdot = rw (split_slash-append (rooted es) b) (
        All-append (λ e. e ≢ dotdot) (split_slash (rooted es)) (split_slash b)
          (split_slash-rooted es h) k)

pub join-cons : (c : ℕ) (a b : Bytes) → join (c ∷ a) b ≡ clean ((c ∷ a) ++ (slash ∷ b))
unfolding join bytes_discrete
join-cons c a b = refl

-- Joining a name to a clean absolute path.
pub join-rooted :
    (es : List Bytes) (e : Bytes)
    → All IsElem es
    → IsElem e
    → join (rooted es) e ≡ rooted (es ++ (e ∷ []))
join-rooted es e h k =
    join-cons slash (join_slash es) e
    ∙ clean-slash es e h (rw (split_slash_self e k.3) (k.2, tt))
    ∙ ap (λ x. rooted (es ++ x)) (elems-elem e k)

pub clean-rooted-slash :
    (es : List Bytes) → All IsElem es → clean (rooted es ++ (slash ∷ [])) ≡ rooted es
unfolding elems split_slash bytes_discrete
clean-rooted-slash es h = clean-slash es [] h (ground arith) ∙ ap rooted (append-nil es)
