-- ===== src/FilePath/Split.antt =====
-- Splitting and joining at slashes undo one another on elements that hold no slash.
use mdtree.Prelude.{
  ℕ, Bytes, ◌≡◌, ◌≢◌, ◌∙◌, refl, ap, if◌then◌else◌, List, [], ◌∷◌, ◌++◌, arith, All, ◌==◌,
}
use mdtree.FilePath.{slash, dot, dotdot, split_slash, cons_head, join_slash}

abbrev pub NoSlash : Bytes → Type 0
NoSlash = All (λ c. c ≢ slash)

-- A name that an absolute clean path can hold.
abbrev pub IsElem : Bytes → Type 0
IsElem e = (e ≢ []) × (e ≢ dot) × (e ≢ dotdot) × NoSlash e

pub split_slash_self : (x : Bytes) → NoSlash x → split_slash x ≡ x ∷ []
unfolding split_slash
split_slash_self [] h = refl
split_slash_self (c ∷ x) h = ground (arith, split_slash_self x h.1)

split_slash-slash : (x s : Bytes) → NoSlash x → split_slash (x ++ (slash ∷ s)) ≡ x ∷ split_slash s
unfolding split_slash
split_slash-slash [] s h = refl
split_slash-slash (c ∷ x) s h = ground (arith, split_slash-slash x s h.1)

pub split_slash-join_slash :
    (e : Bytes) (es : List Bytes)
    → All NoSlash (e ∷ es)
    → split_slash (join_slash (e ∷ es)) ≡ e ∷ es
unfolding join_slash
split_slash-join_slash e [] h = split_slash_self e h.0
split_slash-join_slash e (f ∷ es) h =
    split_slash-slash e (join_slash (f ∷ es)) h.0 ∙ ap (◌∷◌ e) (split_slash-join_slash f es h.1)

NoSlash-cons_case :
    (c : ℕ) (es : List Bytes)
    → All NoSlash es
    → All NoSlash (if c == slash then [] ∷ es else cons_head c es)
NoSlash-cons_case c [] h = ground arith
NoSlash-cons_case c (e ∷ es) h = ground arith

pub split_slash-NoSlash : (s : Bytes) → All NoSlash (split_slash s)
unfolding split_slash
split_slash-NoSlash [] = (tt, tt)
split_slash-NoSlash (c ∷ s) = NoSlash-cons_case c (split_slash s) (split_slash-NoSlash s)
