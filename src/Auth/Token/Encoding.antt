-- ===== src/Auth/Token/Encoding.antt =====
-- The base 64 text of random bytes: its length, and that it tells all byte strings apart.
use mathlib.Core.Path.{subst}
use mdtree.Prelude.{
  zero, suc, ◌≤◌, ◌⊎◌, ℕ, ◌+◌, ◌-◌, ◌*◌, ◌/◌, ◌%◌, ◌<◌, Bytes, ◌≡◌, ap, ◌∙◌, refl, sym, [], ◌∷◌,
  Option, none, some, arith, All, length, ltb, ◌==◌, if◌then◌else◌,
}
use mdtree.Auth.Token.{url_digit, url_encode, fill, random_token}

abbrev pub IsByte : ℕ → Type 0
IsByte b = b < 256

-- The digit's number, read back.
abbrev undigit : ℕ → ℕ
undigit c =
    if c == 45
    then 62
    else if c == 95
    then 63
    else if ltb c 58
    then c - 48 + 52
    else if ltb c 91
    then c - 65
    else c - 97 + 26

undigit-url_digit : (d : ℕ) → d < 64 → undigit (url_digit d) ≡ d
unfolding url_digit
undigit-url_digit d h = ground arith

-- `base64.RawURLEncoding.DecodeString`, on what the encoder makes.
unfoldable url_decode : Bytes → Bytes
url_decode (p ∷ q ∷ r ∷ s ∷ t) =
    (undigit p * 4 + undigit q / 16)
    ∷ (undigit q % 16 * 16 + undigit r / 4)
    ∷ (undigit r % 4 * 64 + undigit s)
    ∷ url_decode t
url_decode (p ∷ q ∷ r ∷ []) =
    (undigit p * 4 + undigit q / 16) ∷ (undigit q % 16 * 16 + undigit r / 4) ∷ []
url_decode (p ∷ q ∷ []) = (undigit p * 4 + undigit q / 16) ∷ []
url_decode _ = []

first_byte :
    (a b : ℕ)
    → a < 256
    → b < 256
    → undigit (url_digit (a / 4)) * 4 + undigit (url_digit (a % 4 * 16 + b / 16)) / 16 ≡ a
first_byte a b h k =
    rw
      (
        undigit-url_digit (a / 4) (omega arith),
        undigit-url_digit (a % 4 * 16 + b / 16) (omega arith),
      )
      (omega arith)

second_byte :
    (a b c : ℕ)
    → a < 256
    → b < 256
    → c < 256
    → undigit (url_digit (a % 4 * 16 + b / 16)) % 16 * 16
        + undigit (url_digit (b % 16 * 4 + c / 64)) / 4
      ≡ b
second_byte a b c h k l =
    rw
      (
        undigit-url_digit (a % 4 * 16 + b / 16) (omega arith),
        undigit-url_digit (b % 16 * 4 + c / 64) (omega arith),
      )
      (omega arith)

third_byte :
    (b c : ℕ)
    → b < 256
    → c < 256
    → undigit (url_digit (b % 16 * 4 + c / 64)) % 4 * 64 + undigit (url_digit (c % 64)) ≡ c
third_byte b c k l =
    rw
      (
        undigit-url_digit (b % 16 * 4 + c / 64) (omega arith),
        undigit-url_digit (c % 64) (omega arith),
      )
      (omega arith)

-- Decoding gives back the bytes.
decode-url_encode : (s : Bytes) → All IsByte s → url_decode (url_encode s) ≡ s
unfolding url_decode url_encode
decode-url_encode [] h = refl
decode-url_encode (a ∷ []) h =
    rw (undigit-url_digit (a / 4) (omega arith), undigit-url_digit (a % 4 * 16) (omega arith))
      (ap (λ x. x ∷ []) (omega arith))
decode-url_encode (a ∷ b ∷ []) h =
    rw
      (
        first_byte a b h.0 h.1.0,
        undigit-url_digit (a % 4 * 16 + b / 16) (omega arith),
        undigit-url_digit (b % 16 * 4) (omega arith),
      )
      (ap (λ x. a ∷ x ∷ []) (omega arith))
decode-url_encode (a ∷ b ∷ c ∷ s) h =
    rw
      (
        first_byte a b h.0 h.1.0,
        second_byte a b c h.0 h.1.0 h.1.1.0,
        third_byte b c h.1.0 h.1.1.0,
        decode-url_encode s h.1.1.1,
      )
      refl

length-url_encode : (s : Bytes) → length (url_encode s) ≡ (4 * length s + 2) / 3
unfolding url_encode
length-url_encode [] = omega arith
length-url_encode (a ∷ []) = omega arith
length-url_encode (a ∷ b ∷ []) = omega arith
length-url_encode (a ∷ b ∷ c ∷ s) = omega (arith, length-url_encode s)

abbrev or_empty : Option Bytes → Bytes
or_empty none = []
or_empty (some t) = t

length-fill : (n : ℕ) (source : Bytes) → length (fill n source) ≡ n
unfolding fill
length-fill zero source = refl
length-fill (suc n) [] = omega (arith, length-fill n [])
length-fill (suc n) (c ∷ source) = omega (arith, length-fill n source)

fill-whole : (n : ℕ) (source : Bytes) → length source ≡ n → fill n source ≡ source
unfolding fill
fill-whole zero [] q = refl
fill-whole zero (c ∷ source) q = absurd (omega (arith, q))
fill-whole (suc n) [] q = absurd (omega (arith, q))
fill-whole (suc n) (c ∷ source) q = ap (λ s. c ∷ s) (fill-whole n source (omega (arith, q)))

-- Two tokens are the same only when the random bytes were: nothing of the randomness is lost.
random_token-injective :
    (n : ℕ) (a b : Bytes)
    → All IsByte a
    → All IsByte b
    → length a ≡ n
    → length b ≡ n
    → random_token n (some a) ≡ random_token n (some b)
    → a ≡ b
unfolding random_token
random_token-injective n a b h k p q e =
    sym (ap (λ s. url_decode (url_encode s)) (fill-whole n a p) ∙ decode-url_encode a h)
    ∙ ap (λ t. url_decode (or_empty t)) e
    ∙ ap (λ s. url_decode (url_encode s)) (fill-whole n b q)
    ∙ decode-url_encode b k

-- A character of the alphabet: a letter, a digit, a dash or an underscore.
abbrev pub IsUrlSafe : ℕ → Type 0
IsUrlSafe c =
    ((b'A' ≤ c) × (c ≤ b'Z'))
    ⊎ ((b'a' ≤ c) × (c ≤ b'z'))
    ⊎ ((b'0' ≤ c) × (c ≤ b'9'))
    ⊎ (c ≡ b'-')
    ⊎ (c ≡ b'_')

url_digit-IsUrlSafe : (d : ℕ) → IsUrlSafe (url_digit d)
unfolding url_digit
url_digit-IsUrlSafe d = ground arith

url_encode-IsUrlSafe : (s : Bytes) → All IsUrlSafe (url_encode s)
unfolding url_encode
url_encode-IsUrlSafe [] = tt
url_encode-IsUrlSafe (a ∷ []) =
    (url_digit-IsUrlSafe (a / 4), (url_digit-IsUrlSafe (a % 4 * 16), tt))
url_encode-IsUrlSafe (a ∷ b ∷ []) = (
  url_digit-IsUrlSafe (a / 4),
  (url_digit-IsUrlSafe (a % 4 * 16 + b / 16), (url_digit-IsUrlSafe (b % 16 * 4), tt)),
)
url_encode-IsUrlSafe (a ∷ b ∷ c ∷ s) = (
  url_digit-IsUrlSafe (a / 4),
  (
    url_digit-IsUrlSafe (a % 4 * 16 + b / 16),
    (
      url_digit-IsUrlSafe (b % 16 * 4 + c / 64),
      (url_digit-IsUrlSafe (c % 64), url_encode-IsUrlSafe s),
    ),
  ),
)

-- The token of `n` random bytes: its length is that of base 64 without padding.
pub random_token-length :
    (n : ℕ) (random : Option Bytes) (t : Bytes)
    → random_token n random ≡ some t
    → (length t ≡ (4 * n + 2) / 3) × All IsUrlSafe t
unfolding random_token
random_token-length n none t e = cc
random_token-length n (some source) t e =
    let same = ap or_empty e in
    (
      sym (ap length same)
          ∙ length-url_encode (fill n source)
          ∙ ap (λ k. (4 * k + 2) / 3) (length-fill n source),
      subst (All IsUrlSafe) same (url_encode-IsUrlSafe (fill n source)),
    )
