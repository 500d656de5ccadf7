-- ===== src/Fs/Temp.antt =====
-- What the calls do to a temporary file and to the place that it is moved to.
use mathlib.Core.Path.{subst}
use mdtree.Prelude.{
  ℕ, Bytes, ◌≡◌, ◌≢◌, ◌⊎◌, inl, inr, sym, ap, ◌∙◌, refl, [], ◌∷◌, ◌++◌, none, some, arith, take,
}
use mdtree.Result.{Result, ok, err}
use mdtree.FilePath.{slash}
use mdtree.Fs.Node.{Errno, file, Loc, loc_discrete, Fs, Fault, at_write, node_at, put, delete}
use mdtree.Fs.Reads.{locate}
use mdtree.Fs.Fewer.{Fewer, EndsAt}
use mdtree.Fs.Writes.{
  remove_at, remove, rename_file_at, rename_dir_at, rename_at, rename, temp_name, create_temp,
  write_string,
}

-- The same nodes but at one location.
abbrev pub Except : Loc → Fs → Fs → Type 0
Except l fs fs' = (k : Loc) → k ≢ l → node_at fs' k ≡ node_at fs k

pub Except-Fewer : (l : Loc) (fs fs' : Fs) → Except l fs fs' → EndsAt (node_at fs l) → Fewer fs fs'
Except-Fewer l fs fs' same end k = elim (loc_discrete k l) [
  | yes p ↦ inr (subst (λ x. EndsAt (node_at fs x)) (sym p) end)
  | no p ↦ inl (same k p)
]

pub top_taken : (fs : Fs) (l : Loc) → node_at fs l ≡ none → l ≢ []
unfolding node_at
top_taken fs [] q p = cc
top_taken fs (e ∷ es) q p = cc

-- A temporary file is made where nothing was.
pub record Made (d : Bytes) (fs : Fs) (tmp : Bytes) (fs' : Fs) : Type 0 where
  pub l : Loc
  pub named : tmp ≡ d ++ (slash ∷ temp_name fs.temp_suffix)
  pub here : locate fs tmp ≡ ok l
  pub free : node_at fs l ≡ none
  pub result : fs' ≡ put l (file [] fs.now) fs

pub Result-cases :
    {E A : Type 0} (r : Result E A) → ((a : A) × (r ≡ ok a)) ⊎ ((e : E) × (r ≡ err e))
Result-cases (ok a) = inl (a, refl)
Result-cases (err e) = inr (e, refl)

pub create_temp-Made :
    (d : Bytes) (fs : Fs) (tmp : Bytes)
    → (create_temp d fs).0 ≡ ok tmp
    → Made d fs tmp (create_temp d fs).1
unfolding create_temp
create_temp-Made d fs tmp q =
    let p : Bytes = d ++ (slash ∷ temp_name fs.temp_suffix) in
    elim (Result-cases (locate fs p)) [
      | inl (l, e) ↦
          let named : tmp ≡ p = ground arith in
          record {
            l = l;
            named = named;
            here = ap (locate fs) named ∙ e;
            free = ground arith;
            result = ground arith;
          }
      | inr (c, e) ↦ ground arith
    ]

pub create_temp-err :
    (d : Bytes) (fs : Fs) (e : Errno) → (create_temp d fs).0 ≡ err e → (create_temp d fs).1 ≡ fs
unfolding create_temp
create_temp-err d fs e q = ground arith

abbrev written_part : Fault → Bytes → Bytes
written_part (at_write n) content = take n content
written_part _ content = content

-- What is written is a file there, whole if there is no error.
pub write_string-file :
    (tmp content : Bytes) (fs : Fs) (l : Loc)
    → locate fs tmp ≡ ok l
    → (c : Bytes) × ((write_string tmp content fs).1 ≡ put l (file c fs.now) fs)
      × (((write_string tmp content fs).0 ≡ ok tt) → c ≡ content)
unfolding write_string
write_string-file tmp content fs l q =
    (written_part fs.fault content, ground arith, λ r. ground arith)

pub rename-err :
    (a b : Bytes) (fs : Fs) (e : Errno) → (rename a b fs).0 ≡ err e → (rename a b fs).1 ≡ fs
unfolding rename rename_at rename_file_at rename_dir_at
rename-err a b fs e q = ground arith

pub rename-file :
    (a b : Bytes) (fs : Fs) (l t : Loc) (c : Bytes) (m : ℕ)
    → locate fs a ≡ ok l
    → locate fs b ≡ ok t
    → node_at fs l ≡ some (file c m)
    → l ≢ t
    → (rename a b fs).0 ≡ ok tt
    → (rename a b fs).1 ≡ put t (file c m) (delete l (delete t fs))
unfolding rename rename_at rename_file_at
rename-file a b fs l t c m p q n o r = ground arith

-- A file that is moved to where it is stays there.
pub rename-same :
    (a b : Bytes) (fs : Fs) (l : Loc) (c : Bytes) (m : ℕ)
    → locate fs a ≡ ok l
    → locate fs b ≡ ok l
    → node_at fs l ≡ some (file c m)
    → (rename a b fs).1 ≡ fs
unfolding rename rename_at rename_file_at
rename-same a b fs l c m p q n = ground arith

pub remove-file :
    (p : Bytes) (fs : Fs) (l : Loc) (c : Bytes) (m : ℕ)
    → locate fs p ≡ ok l
    → l ≢ []
    → node_at fs l ≡ some (file c m)
    → (remove p fs).1 ≡ delete l fs
unfolding remove remove_at
remove-file p fs [] c m q n at = absurd (n refl)
remove-file p fs (e ∷ es) c m q n at = ground arith

pub remove-none :
    (p : Bytes) (fs : Fs) (l : Loc)
    → locate fs p ≡ ok l
    → node_at fs l ≡ none
    → (remove p fs).1 ≡ fs
unfolding remove remove_at
remove-none p fs [] q at = ground arith
remove-none p fs (e ∷ es) q at = ground arith

pub remove-unlocated :
    (p : Bytes) (fs : Fs) (e : Errno) → locate fs p ≡ err e → (remove p fs).1 ≡ fs
unfolding remove
remove-unlocated p fs e q = ground arith

-- A file is not moved over the top directory.
pub rename-top :
    (a b : Bytes) (fs : Fs) (l t : Loc) (c : Bytes) (m : ℕ)
    → locate fs a ≡ ok l
    → locate fs b ≡ ok t
    → node_at fs l ≡ some (file c m)
    → (rename a b fs).0 ≡ ok tt
    → t ≢ []
unfolding rename rename_at rename_file_at node_at
rename-top a b fs l [] c m p q n r = λ z. ground arith
rename-top a b fs l (e ∷ es) c m p q n r = λ z. cc

pub rename-located :
    (a b : Bytes) (fs : Fs) → (rename a b fs).0 ≡ ok tt → (t : Loc) × (locate fs b ≡ ok t)
unfolding rename
rename-located a b fs r = elim (Result-cases (locate fs b)) [
  | inl (t, q) ↦ (t, q)
  | inr (e, q) ↦ absurd (ground arith)
]

-- What is removed is the one node where the path is located.
pub remove-eq-ok :
    (p : Bytes) (fs : Fs)
    → (remove p fs).0 ≡ ok tt
    → (t : Loc) × (locate fs p ≡ ok t) × (t ≢ []) × ((remove p fs).1 ≡ delete t fs)
unfolding remove remove_at
remove-eq-ok p fs q = elim (Result-cases (locate fs p)) [
  | inl (t, e) ↦
      let q' : (remove_at t fs).0 ≡ ok tt = ground arith in
      let (n, d) = removed t q' in (t, e, n, ground (arith, d))
  | inr (c, e) ↦ absurd (ground arith)
]
  where
    removed : (t : Loc) → (remove_at t fs).0 ≡ ok tt → (t ≢ []) × ((remove_at t fs).1 ≡ delete t fs)
    removed [] q = absurd (ground arith)
    removed (e ∷ es) q = ((λ z. cc), ground arith)
