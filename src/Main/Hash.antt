-- ===== src/Main/Hash.antt =====
-- `runHash` and `promptPassword` of cmd/mdtree/main.go.
use mdtree.Prelude.{
  ℕ, Bytes, bytes_eq, Bool, ◌&&◌, ◌||◌, [], ◌∷◌, Option, none, some, ltb, length, ◌==◌,
  if◌then◌else◌,
}
use mdtree.Result.{Result, ok, err}
use mdtree.Auth.Token.{Bcrypt, hash_password}

abbrev is_newline : ℕ → Bool
is_newline c = c == 13 || c == 10

-- `strings.TrimRight(s, "\r\n")`.
unfoldable pub trim_newlines : Bytes → Bytes
trim_newlines [] = []
trim_newlines (c ∷ s) =
    let rest = trim_newlines s in if bytes_eq rest [] && is_newline c then [] else c ∷ rest

-- What is read from standard input, piped or typed twice; `none` is an error of reading.
pub data Input : Type 0 where
  piped : Option Bytes → Input
  typed : Option Bytes → Option Bytes → Input

pub data HashError : Type 0 where
  read_failed mismatch too_short hash_failed : HashError

abbrev confirmed : Option Bytes → Option Bytes → Result HashError Bytes
confirmed none again = err read_failed
confirmed (some p) none = err read_failed
confirmed (some p) (some again) = if bytes_eq p again then ok p else err mismatch

abbrev entered : Input → Result HashError Bytes
entered (piped none) = err read_failed
entered (piped (some text)) = ok (trim_newlines text)
entered (typed p again) = confirmed p again

abbrev or_hash_failed : Option Bytes → Result HashError Bytes
or_hash_failed none = err hash_failed
or_hash_failed (some hash) = ok hash

-- `runHash`: the hash that is printed.
unfoldable pub run_hash : Bcrypt → Bytes → Input → Result HashError Bytes
run_hash b salt input = elim (entered input) [
  | err e ↦ err e
  | ok password ↦
      if ltb (length password) 8
      then err too_short
      else or_hash_failed (hash_password b salt password)
]
