-- ===== src/Files/Resolver/Accepts.antt =====
-- Which absolute paths `Resolve` accepts and which it refuses.
use mathlib.Core.Path.{subst}
use mdtree.Prelude.{Bytes, ◌≡◌, inl, inr, sym, refl, Bool, true, false, ◌||◌, List, All, Bool-cases}
use mdtree.Result.{ok, err}
use mdtree.Text.{is_blank, contains_byte}
use mdtree.FilePath.{is_abs, clean}
use mdtree.FilePath.Split.{IsElem}
use mdtree.FilePath.Clean.{rooted, parts, parts-IsElem, clean-eq-rooted}
use mdtree.Fs.Node.{Fs}
use mdtree.Files.Error.{outside_root}
use mdtree.Files.Resolver.{Resolver, new_resolver, within, absolute, check_links, resolve}
use mdtree.Files.Resolver.Within.{Under, Under-within, within-Under}

absolute_of_abs : (r : Resolver) (p : Bytes) → is_abs p ≡ true → absolute r p ≡ clean p
unfolding absolute
absolute_of_abs r p a = rw a refl

Under-within_root :
    (r : Resolver) (rs es : List Bytes)
    → r.root ≡ rooted rs
    → All IsElem rs
    → All IsElem es
    → Under rs es
    → within r (rooted es) ≡ true
Under-within_root r rs es root h k (rest, e) =
    subst (λ x. within r (rooted x) ≡ true) (sym e)
      (Under-within r rs rest root h (subst (All IsElem) e k))

-- Where links may be followed, an absolute path below the root, neither blank nor with a zero byte,
-- is accepted, and the result is the path cleaned.
pub resolve-Under :
    (root : Bytes) (fs : Fs) (p : Bytes)
    → is_abs root ≡ true
    → is_abs p ≡ true
    → is_blank p || contains_byte p 0 ≡ false
    → Under (parts root) (parts p)
    → resolve (new_resolver root true) fs p ≡ ok (clean p)
unfolding new_resolver resolve check_links
resolve-Under root fs p a b plain under =
    let r : Resolver = record { root = clean root; follow_symlinks = true } in
    rw
      (
        plain,
        absolute_of_abs r p b,
        clean-eq-rooted p b,
        Under-within_root r (parts root) (parts p) (clean-eq-rooted root a) (parts-IsElem root)
            (parts-IsElem p) under,
      )
      refl

-- An absolute path that is not below the root is refused, links or not.
pub resolve-outside_root :
    (root : Bytes) (follow : Bool) (fs : Fs) (p : Bytes)
    → is_abs root ≡ true
    → is_abs p ≡ true
    → is_blank p || contains_byte p 0 ≡ false
    → ¬ Under (parts root) (parts p)
    → resolve (new_resolver root follow) fs p ≡ err outside_root
unfolding new_resolver resolve
resolve-outside_root root follow fs p a b plain off =
    let r : Resolver = record { root = clean root; follow_symlinks = follow } in
    elim (Bool-cases (within r (rooted (parts p)))) [
      | inl w ↦ absurd (
          off (
            within-Under r (parts root) (parts p) (clean-eq-rooted root a) (parts-IsElem root)
              (parts-IsElem p) w))
      | inr w ↦ rw (plain, absolute_of_abs r p b, clean-eq-rooted p b, w) refl
    ]
