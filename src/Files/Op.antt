-- ===== src/Files/Op.antt =====
-- Operations that may change the file system and may fail; what was changed before a failure stays.
pub mod Inversion
use mdtree.Prelude.{Bool, true, false}
use mdtree.Result.{Result, ok, err}
use mdtree.Fs.Node.{Fs, enoent, Node}
use mdtree.Fs.Reads.{IoResult}
use mdtree.Files.Error.{Error, exists, os_error, not_found_or}

abbrev pub Op : Type 0 → Type 0
Op A = Fs → Result Error A × Fs

abbrev pub continue : {A B : Type 0} → (A → Op B) → Result Error A → Op B
continue f (ok a) fs = f a fs
continue f (err e) fs = (err e, fs)

infixl 5 ◌>>=◌ ◌>>◌
unfoldable pub ◌>>=◌ : {A B : Type 0} → Op A → (A → Op B) → Op B
◌>>=◌ m f fs = let (r, fs') = m fs in continue f r fs'

unfoldable pub ◌>>◌ : {A B : Type 0} → Op A → Op B → Op B
m >> k = m >>= λ _. k

unfoldable pub gets : {A : Type 0} → (Fs → Result Error A) → Op A
gets f fs = (f fs, fs)

unfoldable pub require : Bool → Error → Op (Unit {0})
require true e fs = (ok tt, fs)
require false e fs = (err e, fs)

abbrev pub raw : {A : Type 0} → IoResult A → Result Error A
raw (ok a) = ok a
raw (err e) = err (os_error e)

-- A call whose error is returned as it stands.
unfoldable pub call : {A : Type 0} → (Fs → IoResult A × Fs) → Op A
call f fs = let (r, fs') = f fs in (raw r, fs')

-- `os.Stat`, with a missing file told apart from other errors.
abbrev pub or_not_found : IoResult Node → Result Error Node
or_not_found (ok n) = ok n
or_not_found (err e) = err (not_found_or e)

-- `if _, err := os.Stat(p); err == nil { ErrExists } else if !os.IsNotExist(err) { err }`.
abbrev pub must_miss : IoResult Node → Result Error (Unit {0})
must_miss (ok n) = err exists
must_miss (err enoent) = ok tt
must_miss (err e) = err (os_error e)
