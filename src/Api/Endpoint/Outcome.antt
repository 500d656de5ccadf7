-- ===== src/Api/Endpoint/Outcome.antt =====
-- What is known of a handler's answer from the calls of the file manager in it.
use mdtree.Prelude.{◌≤◌, ◌<◌, Bytes, ◌≡◌, refl, Option, none, some, arith}
use mdtree.Result.{Result, ok, err}
use mdtree.Files.Error.{Error}
use mdtree.Files.Op.{Op}
use mdtree.Auth.Middleware.{Response}
use mdtree.Api.Handler.{
  Handler, World, status_of, write_json, write_error, write_file_error, with_fields, or_file_error,
  with_files,
}

refused_status : (e : Error) → 400 ≤ status_of e
refused_status e = ground arith

module _ (h : Handler) where
  pub with_files-ok :
      {A : Type 0} (op : Op A) (k : A → World → Response × World) (w : World)
      → (with_files h op k w).0.status < 300
      → (a : A) × ((op w.fs).0 ≡ ok a)
        × (with_files h op k w ≡ k a (record w { fs = (op w.fs).1 }))
        × ((k a (record w { fs = (op w.fs).1 })).0.status < 300)
  unfolding with_files write_file_error write_error write_json
  with_files-ok {A} op k w q = go (op w.fs).0 refl q
    where
      go :
          (r : Result Error A)
          → (op w.fs).0 ≡ r
          → (or_file_error h r k (record w { fs = (op w.fs).1 })).0.status < 300
          → (a : A) × ((op w.fs).0 ≡ ok a)
            × (or_file_error h r k (record w { fs = (op w.fs).1 })
                ≡ k a (record w { fs = (op w.fs).1 }))
            × ((k a (record w { fs = (op w.fs).1 })).0.status < 300)
      go (ok a) p q = (a, p, refl, q)
      go (err e) p q = absurd (omega (arith, refused_status e, q))

  pub with_fields-ok :
      (o : Option (Bytes → Bytes)) (k : (Bytes → Bytes) → World → Response × World) (w : World)
      → (with_fields h o k w).0.status < 300
      → (req : Bytes → Bytes) × (o ≡ some req)
        × (with_fields h o k w ≡ k req w)
        × ((k req w).0.status < 300)
  unfolding write_error write_json
  with_fields-ok none k w q = absurd (omega (arith, q))
  with_fields-ok (some req) k w q = (req, refl, refl, q)

-- A handler that leaves the index alone, whatever it answers.
unfoldable pub KeepsIndex : (World → Response × World) → Type 0
KeepsIndex k = (w : World) → (k w).1.index ≡ w.index

pub with_files-KeepsIndex :
    {A : Type 0} (h : Handler) (op : Op A) (k : A → World → Response × World)
    → ((a : A) → KeepsIndex (k a))
    → KeepsIndex (with_files h op k)
unfolding with_files KeepsIndex
with_files-KeepsIndex {A} h op k d w = go (op w.fs).0
  where
    go :
        (r : Result Error A)
        → (or_file_error h r k (record w { fs = (op w.fs).1 })).1.index ≡ w.index
    go (ok a) = d a (record w { fs = (op w.fs).1 })
    go (err e) = refl

pub with_fields-KeepsIndex :
    (h : Handler) (o : Option (Bytes → Bytes)) (k : (Bytes → Bytes) → World → Response × World)
    → ((req : Bytes → Bytes) → KeepsIndex (k req))
    → KeepsIndex (with_fields h o k)
unfolding KeepsIndex
with_fields-KeepsIndex h none k d w = refl
with_fields-KeepsIndex h (some req) k d w = d req w
