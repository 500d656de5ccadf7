-- ===== src/Prelude/Assoc.antt =====
-- A Go map with string keys, as an association list; its iteration order is the list's.
use mathlib.Core.List.{List, [], ◌∷◌}
use mathlib.Core.Logic.{ite, ◌≢◌}
use mathlib.Core.Option.{Option, none, some}
use mathlib.Core.Path.{◌≡◌, refl}
use native.Mathlib.Omega.{arith}
use mdtree.Prelude.Tests.{Bytes, bytes_discrete}
use mdtree.Prelude.Lists.{All}

abbrev pub Assoc : Type 0 → Type 0
Assoc V = List (Bytes × V)

module _ {V : Type 0} where
  unfoldable pub lookup : Bytes → Assoc V → Option V
  lookup k [] = none
  lookup k ((j, v) ∷ m) = ite (bytes_discrete k j) (some v) (lookup k m)

  -- `m[k] = v`
  unfoldable pub insert : Bytes → V → Assoc V → Assoc V
  insert k v [] = (k, v) ∷ []
  insert k v ((j, w) ∷ m) =
      let rest = insert k v m in ite (bytes_discrete k j) ((k, v) ∷ m) ((j, w) ∷ rest)

  -- `delete(m, k)`
  unfoldable pub erase : Bytes → Assoc V → Assoc V
  erase k [] = []
  erase k ((j, v) ∷ m) = let rest = erase k m in ite (bytes_discrete k j) rest ((j, v) ∷ rest)

  pub lookup-insert :
      (k j : Bytes) (v : V) (m : Assoc V)
      → lookup j (insert k v m) ≡ ite (bytes_discrete k j) (some v) (lookup j m)
  unfolding lookup insert
  lookup-insert k j v [] = ground arith
  lookup-insert k j v ((i, w) ∷ m) = ground (arith, lookup-insert k j v m)

  pub lookup-erase :
      (k j : Bytes) (m : Assoc V)
      → lookup j (erase k m) ≡ ite (bytes_discrete k j) none (lookup j m)
  unfolding lookup erase
  lookup-erase k j [] = ground arith
  lookup-erase k j ((i, w) ∷ m) = ground (arith, lookup-erase k j m)

  -- No key occurs twice.
  abbrev pub Absent : Bytes → Assoc V → Type 0
  Absent k = All (λ e. e.0 ≢ k)

  abbrev pub HasDistinctKeys : Assoc V → Type 0
  HasDistinctKeys [] = Unit
  HasDistinctKeys ((k, v) ∷ m) = Absent k m × HasDistinctKeys m

  Absent-insert : (k j : Bytes) (v : V) (m : Assoc V) → j ≢ k → Absent k m → Absent k (insert j v m)
  unfolding insert
  Absent-insert k j v [] h a = ground arith
  Absent-insert k j v ((i, w) ∷ m) h a = ground (arith, Absent-insert k j v m h)

  Absent-erase : (k j : Bytes) (m : Assoc V) → Absent k m → Absent k (erase j m)
  unfolding erase
  Absent-erase k j [] a = tt
  Absent-erase k j ((i, w) ∷ m) a = ground (arith, Absent-erase k j m)

  pub insert-HasDistinctKeys :
      (k : Bytes) (v : V) (m : Assoc V) → HasDistinctKeys m → HasDistinctKeys (insert k v m)
  unfolding insert
  insert-HasDistinctKeys k v [] h = (tt, tt)
  insert-HasDistinctKeys k v ((j, w) ∷ m) h =
      ground (arith, insert-HasDistinctKeys k v m, Absent-insert j k v m)

  pub erase-HasDistinctKeys :
      (k : Bytes) (m : Assoc V) → HasDistinctKeys m → HasDistinctKeys (erase k m)
  unfolding erase
  erase-HasDistinctKeys k [] h = tt
  erase-HasDistinctKeys k ((j, w) ∷ m) h =
      ground (arith, erase-HasDistinctKeys k m, Absent-erase j k m)

  -- What is in the map is found under its key.
  pub lookup_of_Absent : (k : Bytes) (m : Assoc V) → Absent k m → lookup k m ≡ none
  unfolding lookup
  lookup_of_Absent k [] a = refl
  lookup_of_Absent k ((j, w) ∷ m) a = ground (arith, lookup_of_Absent k m)
