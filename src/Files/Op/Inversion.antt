-- ===== src/Files/Op/Inversion.antt =====
-- What is known of the steps of an operation that succeeded.
use mdtree.Prelude.{ap, ◌≡◌, refl, Bool, true, false, ◌≢◌}
use mdtree.Result.{Result, ok, err}
use mdtree.Fs.Node.{Fs, Node}
use mdtree.Fs.Reads.{IoResult}
use mdtree.Files.Error.{Error}
use mdtree.Files.Op.{Op, ◌>>=◌, ◌>>◌, gets, require, call, raw, or_not_found, continue}

pub ok≢err : {A : Type 0} {a : A} {e : Error} → ok a ≢ err e
ok≢err q = cc

module _ {A B : Type 0} where
  pub gets-eq-ok :
      (f : Fs → Result Error A) (k : A → Op B) (fs : Fs) (b : B)
      → ((gets f >>= k) fs).0 ≡ ok b
      → (a : A) × (f fs ≡ ok a) × ((k a fs).0 ≡ ok b) × ((gets f >>= k) fs ≡ k a fs)
  unfolding gets ◌>>=◌
  gets-eq-ok f k fs b q = go (f fs) refl q
    where
      go :
          (r : Result Error A)
          → f fs ≡ r
          → (continue k r fs).0 ≡ ok b
          → (a : A) × (f fs ≡ ok a) × ((k a fs).0 ≡ ok b) × (continue k r fs ≡ k a fs)
      go (ok a) p q = (a, p, q, refl)
      go (err e) p q = cc

  pub check-eq-ok :
      (f : Fs → Result Error A) (k : Op B) (fs : Fs) (b : B)
      → ((gets f >> k) fs).0 ≡ ok b
      → (a : A) × (f fs ≡ ok a) × ((k fs).0 ≡ ok b) × ((gets f >> k) fs ≡ k fs)
  unfolding ◌>>◌
  check-eq-ok f k = gets-eq-ok f (λ _. k)

pub require-eq-ok :
    {B : Type 0} (t : Bool) (e : Error) (k : Op B) (fs : Fs) (b : B)
    → ((require t e >> k) fs).0 ≡ ok b
    → (t ≡ true) × ((k fs).0 ≡ ok b) × ((require t e >> k) fs ≡ k fs)
unfolding require ◌>>◌ ◌>>=◌
require-eq-ok true e k fs b q = (refl, q, refl)
require-eq-ok false e k fs b q = cc

pub call-eq-ok :
    {A B : Type 0} (f : Fs → IoResult A × Fs) (k : Op B) (fs : Fs) (b : B)
    → ((call f >> k) fs).0 ≡ ok b
    → (a : A) × ((f fs).0 ≡ ok a) × ((k (f fs).1).0 ≡ ok b) × ((call f >> k) fs ≡ k (f fs).1)
unfolding call ◌>>◌ ◌>>=◌
call-eq-ok {A = A} f k fs b q = go (f fs).0 refl q
  where
    go :
        (r : IoResult A)
        → (f fs).0 ≡ r
        → (continue (λ _. k) (raw r) (f fs).1).0 ≡ ok b
        → (a : A) × ((f fs).0 ≡ ok a)
          × ((k (f fs).1).0 ≡ ok b)
          × (continue (λ _. k) (raw r) (f fs).1 ≡ k (f fs).1)
    go (ok a) p q = (a, p, q, refl)
    go (err e) p q = cc

abbrev pub value : {A : Type 0} → A → Result Error A → A
value a (ok b) = b
value a (err e) = a

-- A file that is looked at is there.
pub or_not_found-eq-ok : (r : IoResult Node) (n : Node) → or_not_found r ≡ ok n → r ≡ ok n
or_not_found-eq-ok (ok m) n q = ap ok (ap (value m) q)
or_not_found-eq-ok (err e) n q = cc

pub last_call-eq-ok :
    {A : Type 0} (f : Fs → IoResult A × Fs) (fs : Fs) (a : A)
    → (call f fs).0 ≡ ok a
    → ((f fs).0 ≡ ok a) × ((call f fs).1 ≡ (f fs).1)
unfolding call
last_call-eq-ok {A = A} f fs a q = (go (f fs).0 q, refl)
  where
    go : (r : IoResult A) → raw r ≡ ok a → r ≡ ok a
    go (ok b) q = ap ok (ap (value a) q)
    go (err e) q = cc
