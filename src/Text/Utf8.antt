-- ===== src/Text/Utf8.antt =====
-- UTF-8 and the classes of runes: `[]rune(s)`, `range s`, `unicode.IsSpace`, `unicode.ToLower`.
use mdtree.Prelude.{
  ℕ, zero, suc, ◌+◌, ◌-◌, ◌*◌, ◌/◌, ◌%◌, Bytes, Bool, ◌&&◌, ◌||◌, List, [], ◌∷◌, ◌++◌, leb, ltb,
  ◌==◌, if◌then◌else◌,
}

-- The lower-case map beyond ASCII is a table of the Unicode version that Go was built with.
pub record CaseTable : Type 0 where
  pub lower : ℕ → ℕ

-- `unicode.ToLower`.
unfoldable pub to_lower_rune : CaseTable → ℕ → ℕ
to_lower_rune u r = if ltb r 128 then if leb b'A' r && leb r b'Z' then r + 32 else r else u.lower r

-- `unicode.IsSpace`.
unfoldable pub is_space_rune : ℕ → Bool
is_space_rune r =
    (leb 9 r && leb r 13)
    || r == 32
    || r == 0x85
    || r == 0xA0
    || r == 0x1680
    || (leb 0x2000 r && leb r 0x200a)
    || r == 0x2028
    || r == 0x2029
    || r == 0x202f
    || r == 0x205f
    || r == 0x3000

abbrev is_cont : ℕ → Bool
is_cont b = leb 0x80 b && leb b 0xBF

abbrev rune_error : ℕ
rune_error = 0xFFFD

-- `utf8.DecodeRune`: the rune and its width; an invalid sequence is U+FFFD of width 1. Overlong
-- forms, surrogates and runes above U+10FFFF are invalid.
decode2 : ℕ → ℕ → ℕ × ℕ
decode2 a b =
    if leb 0xC2 a && leb a 0xDF && is_cont b
    then ((a - 0xC0) * 64 + (b - 0x80), 2)
    else (rune_error, 1)

decode3 : ℕ → ℕ → ℕ → ℕ × ℕ
decode3 a b c =
    if leb 0xE0 a
      && leb a 0xEF
      && is_cont b
      && is_cont c
      && leb (if a == 0xE0 then 0xA0 else 0x80) b
      && leb b (if a == 0xED then 0x9F else 0xBF)
    then ((a - 0xE0) * 4096 + (b - 0x80) * 64 + (c - 0x80), 3)
    else decode2 a b

decode4 : ℕ → ℕ → ℕ → ℕ → ℕ × ℕ
decode4 a b c d =
    if leb 0xF0 a
      && leb a 0xF4
      && is_cont b
      && is_cont c
      && is_cont d
      && leb (if a == 0xF0 then 0x90 else 0x80) b
      && leb b (if a == 0xF4 then 0x8F else 0xBF)
    then ((a - 0xF0) * 262144 + (b - 0x80) * 4096 + (c - 0x80) * 64 + (d - 0x80), 4)
    else decode3 a b c

unfoldable pub decode_rune : ℕ → Bytes → ℕ × ℕ
unfolding decode2 decode3 decode4
decode_rune a [] = if ltb a 0x80 then (a, 1) else (rune_error, 1)
decode_rune a (b ∷ []) = if ltb a 0x80 then (a, 1) else decode2 a b
decode_rune a (b ∷ c ∷ []) = if ltb a 0x80 then (a, 1) else decode3 a b c
decode_rune a (b ∷ c ∷ d ∷ _) = if ltb a 0x80 then (a, 1) else decode4 a b c d

-- The first number is how many bytes of a rune already read are left.
unfoldable pub runes_skip : ℕ → Bytes → List ℕ
runes_skip k [] = []
runes_skip (suc k) (b ∷ bs) = runes_skip k bs
runes_skip zero (b ∷ bs) = let (r, w) = decode_rune b bs in r ∷ runes_skip (w - 1) bs

-- `[]rune(s)`.
unfoldable pub runes : Bytes → List ℕ
unfolding runes_skip decode_rune
runes = runes_skip 0

-- `utf8.AppendRune`.
unfoldable pub encode_rune : ℕ → Bytes
encode_rune r =
    if ltb r 0x80
    then r ∷ []
    else if ltb r 0x800
    then (0xC0 + r / 64) ∷ (0x80 + r % 64) ∷ []
    else if (leb 0xD800 r && leb r 0xDFFF) || ltb 0x10FFFF r
    then 0xEF ∷ 0xBF ∷ 0xBD ∷ []
    else if ltb r 0x10000
    then (0xE0 + r / 4096) ∷ (0x80 + r / 64 % 64) ∷ (0x80 + r % 64) ∷ []
    else (0xF0 + r / 262144) ∷ (0x80 + r / 4096 % 64) ∷ (0x80 + r / 64 % 64) ∷ (0x80 + r % 64) ∷ []

-- `string(runes)`.
unfoldable pub encode : List ℕ → Bytes
unfolding encode_rune
encode [] = []
encode (r ∷ rs) = encode_rune r ++ encode rs
