-- ===== src/Files/Manager/Made.antt =====
-- What `Create` and `Rename` have done when they succeed.
use mathlib.Core.Path.{subst}
use mdtree.Prelude.{Bytes, ◌≡◌, ◌≢◌, refl, sym, ap, ◌∙◌, Bool, true, ◌&&◌, arith}
use mdtree.Result.{Result, ok, err}
use mdtree.Text.{CaseTable}
use mdtree.Fs.Node.{Node, Fs}
use mdtree.Fs.Reads.{IoResult, stat}
use mdtree.Files.Error.{Error}
use mdtree.Files.Op.{gets, raw, must_miss}
use mdtree.Files.Op.Inversion.{
  ok≢err, gets-eq-ok, check-eq-ok, require-eq-ok, call-eq-ok, or_not_found-eq-ok, value,
}
use mdtree.Files.Markdown.{is_markdown}
use mdtree.Files.Resolver.{Resolver, resolve}
use mdtree.Files.Manager.{FileInfo, file_info_of, save, create, rename, resolve_path, info_of}
use mdtree.Files.Manager.Saved.{info_of-kept}

raw-eq-ok : (r : IoResult Node) (n : Node) → raw r ≡ ok n → r ≡ ok n
raw-eq-ok (ok m) n q = ap ok (ap (value m) q)
raw-eq-ok (err e) n q = cc

ok-injective : (a b : FileInfo) (r : Result Error FileInfo) → r ≡ ok a → r ≡ ok b → a ≡ b
ok-injective a b r p q = ap (value a) (sym p ∙ q)

-- Nothing was there, and something else was.
must_miss_other :
    (fs : Fs) (p q : Bytes) (n : Node) (t : Unit {0})
    → stat fs p ≡ ok n
    → must_miss (stat fs q) ≡ ok t
    → p ≢ q
must_miss_other fs p q n t h m e =
    absurd (ok≢err (sym m ∙ ap (λ x. must_miss (stat fs x)) (sym e) ∙ ap must_miss h))

&&-right : (a b : Bool) → a && b ≡ true → b ≡ true
&&-right a b h = ground arith

-- A file that is answered to be at the path.
pub record Made (u : CaseTable) (abs : Bytes) (fs : Fs) (info : FileInfo) : Type 0 where
  pub node : Node
  pub markdown : is_markdown u abs ≡ true
  pub there : stat fs abs ≡ ok node
  pub answer : info ≡ file_info_of abs node

pub info_of-Made :
    (u : CaseTable) (abs : Bytes) (fs : Fs) (info : FileInfo)
    → is_markdown u abs ≡ true
    → (info_of abs fs).0 ≡ ok info
    → Made u abs fs info
unfolding info_of gets
info_of-Made u abs fs info md q =
    let (n, looked, q₁, e₁) = gets-eq-ok _ _ fs info q in
    record {
      node = n;
      markdown = md;
      there = raw-eq-ok (stat fs abs) n looked;
      answer = sym (ok-injective (file_info_of abs n) info _ refl q₁);
    }

-- Where saving succeeds, the answer describes what stands at the path.
pub save-Made :
    (u : CaseTable) (r : Resolver) (path content : Bytes) (fs : Fs) (info : FileInfo)
    → (save u r path content fs).0 ≡ ok info
    → (abs : Bytes) × (resolve r fs path ≡ ok abs) × Made u abs (save u r path content fs).1 info
unfolding save resolve_path
save-Made u r path content fs info q =
    let (abs, resolved, q₁, e₁) = gets-eq-ok _ _ fs info q in
    let (md, q₂, e₂) = require-eq-ok _ _ _ fs info q₁ in
    let (small, q₃, e₃) = require-eq-ok _ _ _ fs info q₂ in
    let (n, looked, q₄, e₄) = gets-eq-ok _ _ fs info q₃ in
    let (_, q₅, e₅) = require-eq-ok _ _ _ fs info q₄ in
    let (_, w, q₆, e₆) = call-eq-ok _ _ fs info q₅ in
    let whole = e₁ ∙ e₂ ∙ e₃ ∙ e₄ ∙ e₅ ∙ e₆ in
    (
      abs,
      resolved,
      subst (λ x. Made u abs x info) (sym (ap (λ x. x.1) whole ∙ info_of-kept abs _))
          (info_of-Made u abs _ info md q₆),
    )

-- Where creating succeeds, a node with a markdown name stands at the resolved path, and the answer
-- is its description.
pub create-Made :
    (u : CaseTable) (r : Resolver) (path content : Bytes) (fs : Fs) (info : FileInfo)
    → (create u r path content fs).0 ≡ ok info
    → (abs : Bytes) × (resolve r fs path ≡ ok abs) × Made u abs (create u r path content fs).1 info
unfolding create resolve_path
create-Made u r path content fs info q =
    let (abs, resolved, q₁, e₁) = gets-eq-ok _ _ fs info q in
    let (md, q₂, e₂) = require-eq-ok _ _ _ fs info q₁ in
    let (small, q₃, e₃) = require-eq-ok _ _ _ fs info q₂ in
    let (_, free, q₄, e₄) = check-eq-ok _ _ fs info q₃ in
    let (_, w₁, q₅, e₅) = call-eq-ok _ _ fs info q₄ in
    let (_, w₂, q₆, e₆) = call-eq-ok _ _ _ info q₅ in
    let whole = e₁ ∙ e₂ ∙ e₃ ∙ e₄ ∙ e₅ ∙ e₆ in
    (
      abs,
      resolved,
      subst (λ x. Made u abs x info) (sym (ap (λ x. x.1) whole ∙ info_of-kept abs _))
          (info_of-Made u abs _ info md q₆),
    )

-- Where renaming succeeds, both paths resolve to markdown names that differ, and a node stands at
-- the new one.
pub rename-Made :
    (u : CaseTable) (r : Resolver) (from to : Bytes) (fs : Fs) (info : FileInfo)
    → (rename u r from to fs).0 ≡ ok info
    → (a : Bytes) × (b : Bytes) × (resolve r fs from ≡ ok a)
      × (resolve r fs to ≡ ok b)
      × (a ≢ b)
      × Made u b (rename u r from to fs).1 info
unfolding rename resolve_path
rename-Made u r from to fs info q =
    let (a, ra, q₁, e₁) = gets-eq-ok _ _ fs info q in
    let (b, rb, q₂, e₂) = gets-eq-ok _ _ fs info q₁ in
    let (md, q₃, e₃) = require-eq-ok _ _ _ fs info q₂ in
    let (n, looked, q₄, e₄) = gets-eq-ok _ _ fs info q₃ in
    let (_, q₅, e₅) = require-eq-ok _ _ _ fs info q₄ in
    let (t, free, q₆, e₆) = check-eq-ok _ _ fs info q₅ in
    let (_, w₁, q₇, e₇) = call-eq-ok _ _ fs info q₆ in
    let (_, w₂, q₈, e₈) = call-eq-ok _ _ _ info q₇ in
    let whole = e₁ ∙ e₂ ∙ e₃ ∙ e₄ ∙ e₅ ∙ e₆ ∙ e₇ ∙ e₈ in
    (
      a,
      b,
      ra,
      rb,
      must_miss_other fs a b n t (or_not_found-eq-ok (stat fs a) n looked) free,
      subst (λ x. Made u b x info) (sym (ap (λ x. x.1) whole ∙ info_of-kept b _))
          (info_of-Made u b _ info (&&-right _ _ md) q₈),
    )
