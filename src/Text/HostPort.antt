-- ===== src/Text/HostPort.antt =====
-- The host of an address with a port, as package net splits it.
use mdtree.Prelude.{
  ℕ, ◌+◌, Bytes, Bool, false, ◌||◌, [], ◌∷◌, Option, none, some, take, drop, ◌==◌, if◌then◌else◌,
}
use mdtree.Text.Strings.{contains_byte}

abbrev index_from : ℕ → ℕ → Bytes → Option ℕ
index_from i c [] = none
index_from i c (d ∷ s) = if c == d then some i else index_from (i + 1) c s

-- `bytealg.IndexByteString` and its mirror; the position is that of the byte.
abbrev index_byte : ℕ → Bytes → Option ℕ
index_byte c s = index_from 0 c s

abbrev later : Option ℕ → Option ℕ → Option ℕ
later none i = i
later (some j) i = some j

abbrev last_from : ℕ → ℕ → Bytes → Option ℕ
last_from i c [] = none
last_from i c (d ∷ s) = later (last_from (i + 1) c s) (if c == d then some i else none)

abbrev last_index_byte : ℕ → Bytes → Option ℕ
last_index_byte c s = last_from 0 c s

abbrev starts_with : ℕ → Bytes → Bool
starts_with c [] = false
starts_with c (d ∷ s) = c == d

-- The host, where no bracket stands at or after the positions `j` and `k`.
abbrev checked_host : Bytes → ℕ → ℕ → Bytes → Option Bytes
checked_host s j k host =
    if contains_byte (drop j s) b'[' || contains_byte (drop k s) b']' then none else some host

-- `net.SplitHostPort`: the host, where the address splits.
unfoldable pub split_host : Bytes → Option Bytes
split_host s = elim (last_index_byte b':' s) [
  | none ↦ none
  | some i ↦
      if starts_with b'[' s
      then elim (index_byte b']' s) [
        | none ↦ none
        | some end ↦ if end + 1 == i then checked_host s 1 (end + 1) (drop 1 (take end s)) else none
      ]
      else if contains_byte (take i s) b':'
      then none
      else checked_host s 0 0 (take i s)
]
