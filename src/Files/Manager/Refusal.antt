-- ===== src/Files/Manager/Refusal.antt =====
-- The file system after a request that `Manager` refuses.
use mathlib.Core.Bool.{true≢false}
use mdtree.Prelude.{Bytes, ◌≡◌, ◌∙◌, refl, sym, ap, Bool, true, false}
use mdtree.Result.{Result, ok, err}
use mdtree.Text.{CaseTable}
use mdtree.Fs.Node.{Fs}
use mdtree.Fs.Reads.{IoResult, stat}
use mdtree.Files.Error.{Error, os_error}
use mdtree.Files.Op.{Op, ◌>>=◌, ◌>>◌, gets, require, call, raw, continue}
use mdtree.Files.Op.Inversion.{ok≢err}
use mdtree.Files.Resolver.{Resolver}
use mdtree.Files.Manager.{
  info_of, file_info_of, resolve_path, save, create, delete, rename, mkdir, delete_dir, rename_dir,
}

-- A request that changes files or directories.
pub data Request : Type 0 where
  save_file create_file : Bytes → Bytes → Request
  delete_file make_dir remove_dir : Bytes → Request
  rename_file move_dir : Bytes → Bytes → Request

abbrev drop_value : {A : Type 0} → Result Error A → Result Error (Unit {0})
drop_value (ok a) = ok tt
drop_value (err e) = err e

abbrev forget : {A : Type 0} → Op A → Op (Unit {0})
forget m fs = let (r, fs') = m fs in (drop_value r, fs')

abbrev pub serve : CaseTable → Resolver → Request → Op (Unit {0})
serve u r (save_file p content) = forget (save u r p content)
serve u r (create_file p content) = forget (create u r p content)
serve u r (delete_file p) = delete u r p
serve u r (rename_file a b) = forget (rename u r a b)
serve u r (make_dir p) = mkdir r p
serve u r (remove_dir p) = delete_dir r p
serve u r (move_dir a b) = rename_dir r a b

-- One of the errors that this package declares.
abbrev pub is_sentinel : Error → Bool
is_sentinel (os_error e) = false
is_sentinel _ = true

-- A declared error leaves the file system alone.
unfoldable pub Refuses : {A : Type 0} → Op A → Type 0
Refuses m = (fs : Fs) (e : Error) → (m fs).0 ≡ err e → is_sentinel e ≡ true → (m fs).1 ≡ fs

abbrev IsRead : {A : Type 0} → Op A → Type 0
IsRead m = (fs : Fs) → (m fs).1 ≡ fs

-- What fails does so with an error of the operating system.
abbrev IsRaw : {A : Type 0} → Op A → Type 0
IsRaw m = (fs : Fs) (e : Error) → (m fs).0 ≡ err e → is_sentinel e ≡ false

abbrev sentinel_result : {A : Type 0} → Result Error A → Bool
sentinel_result (ok a) = false
sentinel_result (err e) = is_sentinel e

module _ {A B : Type 0} where
  Refuses-read :
      (m : Op A) (k : A → Op B) → IsRead m → ((a : A) → Refuses (k a)) → Refuses (m >>= k)
  unfolding Refuses ◌>>=◌
  Refuses-read m k h g fs e q s = go (m fs).0 (m fs).1 (h fs) q
    where
      go :
          (r : Result Error A) (fs' : Fs)
          → fs' ≡ fs
          → (continue k r fs').0 ≡ err e
          → (continue k r fs').1 ≡ fs
      go (ok a) fs' p q = g a fs' e q s ∙ p
      go (err c) fs' p q = p

  IsRaw-then : (m : Op A) (k : A → Op B) → IsRaw m → ((a : A) → IsRaw (k a)) → IsRaw (m >>= k)
  unfolding ◌>>=◌
  IsRaw-then m k h g fs e q = go (m fs).0 (m fs).1 refl q
    where
      go :
          (r : Result Error A) (fs' : Fs)
          → (m fs).0 ≡ r
          → (continue k r fs').0 ≡ err e
          → is_sentinel e ≡ false
      go (ok a) fs' p q = g a fs' e q
      go (err c) fs' p q = h fs e (p ∙ cc)

module _ {A : Type 0} where
  IsRaw-call : (f : Fs → IoResult A × Fs) → IsRaw (call f)
  unfolding call
  IsRaw-call f fs e q = go (f fs).0 q
    where
      go : (r : IoResult A) → raw r ≡ err e → is_sentinel e ≡ false
      go (ok a) q = absurd (ok≢err q)
      go (err c) q = ap sentinel_result (sym q)

  IsRaw-read : (f : Fs → IoResult A) → IsRaw (gets (λ fs. raw (f fs)))
  unfolding gets call
  IsRaw-read f fs e q = IsRaw-call (λ fs. (f fs, fs)) fs e q

  IsRaw-ok : (f : Fs → A) → IsRaw (gets (λ fs. ok (f fs)))
  unfolding gets
  IsRaw-ok f fs e q = absurd (ok≢err q)

  -- A request that only fails with an error of the operating system refuses nothing.
  Refuses-raw : (m : Op A) → IsRaw m → Refuses m
  unfolding Refuses
  Refuses-raw m h fs e q s = absurd (true≢false (sym s ∙ h fs e q))

require-IsRead : (b : Bool) (e : Error) → IsRead (require b e)
unfolding require
require-IsRead true e fs = refl
require-IsRead false e fs = refl

module _ {B : Type 0} where
  -- A step that only looks, and a test.
  pub looks :
      {A : Type 0} (f : Fs → Result Error A) (k : A → Op B)
      → ((a : A) → Refuses (k a))
      → Refuses (gets f >>= k)
  unfolding gets
  looks f k h = Refuses-read (gets f) k (λ fs. refl) h

  pub tests : (b : Bool) (e : Error) (k : Op B) → Refuses k → Refuses (require b e >> k)
  unfolding ◌>>◌
  tests b e k h = Refuses-read (require b e) (λ _. k) (require-IsRead b e) (λ _. h)

  checks : {A : Type 0} (f : Fs → Result Error A) (k : Op B) → Refuses k → Refuses (gets f >> k)
  unfolding gets ◌>>◌
  checks f k h = Refuses-read (gets f) (λ _. k) (λ fs. refl) (λ _. h)

  acts : {A : Type 0} (f : Fs → IoResult A × Fs) (k : Op B) → IsRaw k → Refuses (call f >> k)
  unfolding ◌>>◌
  acts f k h = Refuses-raw (call f >> k) (IsRaw-then (call f) (λ _. k) (IsRaw-call f) (λ _. h))

  acts_more : {A : Type 0} (f : Fs → IoResult A × Fs) (k : Op B) → IsRaw k → IsRaw (call f >> k)
  unfolding ◌>>◌
  acts_more f k h = IsRaw-then (call f) (λ _. k) (IsRaw-call f) (λ _. h)

info_of-IsRaw : (abs : Bytes) → IsRaw (info_of abs)
unfolding info_of
info_of-IsRaw abs =
    IsRaw-then (gets (λ fs. raw (stat fs abs))) (λ n. gets (λ _. ok (file_info_of abs n)))
      (IsRaw-read (λ fs. stat fs abs)) (λ n. IsRaw-ok (λ _. file_info_of abs n))

pub save-Refuses : (u : CaseTable) (r : Resolver) (p content : Bytes) → Refuses (save u r p content)
unfolding save resolve_path
save-Refuses u r p content = looks _ _ (λ abs.
    tests _ _ _ (tests _ _ _ (looks _ _ (λ fi. tests _ _ _ (acts _ _ (info_of-IsRaw abs))))))

pub create-Refuses :
    (u : CaseTable) (r : Resolver) (p content : Bytes) → Refuses (create u r p content)
unfolding create resolve_path
create-Refuses u r p content =
    looks _ _
      (λ abs. tests _ _ _ (tests _ _ _ (checks _ _ (acts _ _ (acts_more _ _ (info_of-IsRaw abs))))))

pub delete-Refuses : (u : CaseTable) (r : Resolver) (p : Bytes) → Refuses (delete u r p)
unfolding delete resolve_path
delete-Refuses u r p =
    looks _ _ (λ abs. tests _ _ _ (looks _ _ (λ fi. tests _ _ _ (Refuses-raw _ (IsRaw-call _)))))

pub rename-Refuses : (u : CaseTable) (r : Resolver) (a b : Bytes) → Refuses (rename u r a b)
unfolding rename resolve_path
rename-Refuses u r a b = looks _ _ (λ from. looks _ _ (λ to.
    tests _ _ _
      (looks _ _ (λ fi. tests _ _ _ (checks _ _ (acts _ _ (acts_more _ _ (info_of-IsRaw to))))))))

pub mkdir-Refuses : (r : Resolver) (p : Bytes) → Refuses (mkdir r p)
unfolding mkdir
mkdir-Refuses r p = looks _ _ (λ abs. checks _ _ (Refuses-raw _ (IsRaw-call _)))

pub delete_dir-Refuses : (r : Resolver) (p : Bytes) → Refuses (delete_dir r p)
unfolding delete_dir
delete_dir-Refuses r p = looks _ _ (λ abs.
    tests _ _ _ (
      looks _ _ (λ fi. tests _ _ _ (looks _ _ (λ es. tests _ _ _ (Refuses-raw _ (IsRaw-call _)))))))

pub rename_dir-Refuses : (r : Resolver) (a b : Bytes) → Refuses (rename_dir r a b)
unfolding rename_dir
rename_dir-Refuses r a b = looks _ _ (λ from.
    looks _ _
      (λ to. tests _ _ _ (looks _ _ (λ fi. tests _ _ _ (checks _ _ (acts _ _ (IsRaw-call _)))))))

forget-Refuses : {A : Type 0} (m : Op A) → Refuses m → Refuses (forget m)
unfolding Refuses
forget-Refuses {A = A} m h fs e q s = h fs e (same (m fs).0 q) s
  where
    same : (x : Result Error A) → drop_value x ≡ err e → x ≡ err e
    same (ok a) q = absurd (ok≢err q)
    same (err c) q = cc

-- A request that is answered with one of the declared errors has changed nothing: every check is
-- made before the first change, and what fails later does so with an error of the operating system.
pub serve-refused :
    (u : CaseTable) (r : Resolver) (q : Request) (fs : Fs) (e : Error)
    → (serve u r q fs).0 ≡ err e
    → is_sentinel e ≡ true
    → (serve u r q fs).1 ≡ fs
unfolding Refuses
serve-refused u r (save_file p content) =
    forget-Refuses (save u r p content) (save-Refuses u r p content)
serve-refused u r (create_file p content) =
    forget-Refuses (create u r p content) (create-Refuses u r p content)
serve-refused u r (delete_file p) = delete-Refuses u r p
serve-refused u r (rename_file a b) = forget-Refuses (rename u r a b) (rename-Refuses u r a b)
serve-refused u r (make_dir p) = mkdir-Refuses r p
serve-refused u r (remove_dir p) = delete_dir-Refuses r p
serve-refused u r (move_dir a b) = rename_dir-Refuses r a b
