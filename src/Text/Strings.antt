-- ===== src/Text/Strings.antt =====
-- The functions of Go's `strings` package that the program calls.
pub mod Order
use mathlib.Core.List.{reverse}
use mdtree.Prelude.{
  ℕ, zero, suc, ◌+◌, Bytes, Bool, true, false, ◌&&◌, ◌||◌, List, [], ◌∷◌, map, Option, none, some,
  ◌==◌, if◌then◌else◌,
}
use mdtree.Text.Utf8.{CaseTable, to_lower_rune, is_space_rune, runes, encode}

-- `strings.ToLower`: of invalid UTF-8 it leaves U+FFFD, as `strings.Map` does.
unfoldable pub to_lower : CaseTable → Bytes → Bytes
unfolding to_lower_rune runes encode
to_lower u s = encode (map (to_lower_rune u) (runes s))

drop_space : List ℕ → List ℕ
drop_space [] = []
drop_space (r ∷ rs) = if is_space_rune r then drop_space rs else r ∷ rs

-- `strings.TrimSpace`, of valid UTF-8.
unfoldable pub trim_space : Bytes → Bytes
unfolding drop_space is_space_rune runes encode
trim_space s = encode (reverse (drop_space (reverse (drop_space (runes s)))))

unfoldable pub all_space : List ℕ → Bool
unfolding is_space_rune
all_space [] = true
all_space (r ∷ rs) = is_space_rune r && all_space rs

-- `strings.TrimSpace(s) == ""`, of any bytes.
unfoldable pub is_blank : Bytes → Bool
unfolding all_space runes
is_blank s = all_space (runes s)

-- `strings.HasPrefix(s, prefix)`.
unfoldable pub has_prefix : Bytes → Bytes → Bool
has_prefix s [] = true
has_prefix [] (p ∷ ps) = false
has_prefix (c ∷ s) (p ∷ ps) = c == p && has_prefix s ps

-- `strings.Index(s, sub)`, with `none` for -1.
unfoldable pub index : Bytes → Bytes → Option ℕ
unfolding has_prefix
index [] sub = if has_prefix [] sub then some 0 else none
index (c ∷ s) sub =
    if has_prefix (c ∷ s) sub
    then some 0
    else elim (index s sub) [ none ↦ none | some i ↦ some (suc i) ]

-- `strings.Contains(s, sub)`.
unfoldable pub contains : Bytes → Bytes → Bool
unfolding index
contains s sub = elim (index s sub) [ none ↦ false | some _ ↦ true ]

-- `strings.ContainsRune(s, 0)`: an ASCII rune is found byte by byte.
unfoldable pub contains_byte : Bytes → ℕ → Bool
contains_byte [] c = false
contains_byte (b ∷ s) c = b == c || contains_byte s c

-- `a < b` on strings: byte by byte.
unfoldable pub lt_bytes : Bytes → Bytes → Bool
lt_bytes s [] = false
lt_bytes [] (c ∷ t) = true
lt_bytes (b ∷ s) (c ∷ t) = elim (Prim.Native.Nat.compare b c) [
  | Prim.Native.Nat.Ordering.lt ↦ true
  | Prim.Native.Nat.Ordering.eq ↦ lt_bytes s t
  | Prim.Native.Nat.Ordering.gt ↦ false
]
