-- ===== src/Auth/Token.antt =====
-- internal/auth/password.go: random tokens, and passwords behind bcrypt.
pub mod Encoding
use mdtree.Prelude.{
  ℕ, zero, suc, ◌+◌, ◌-◌, ◌*◌, ◌/◌, ◌%◌, Bytes, bytes_eq, Bool, false, [], ◌∷◌, Option, none, some,
  ltb, ◌==◌, if◌then◌else◌,
}

-- One digit of the URL-safe base 64 alphabet.
unfoldable pub url_digit : ℕ → ℕ
url_digit d =
    if ltb d 26
    then b'A' + d
    else if ltb d 52
    then b'a' + (d - 26)
    else if ltb d 62
    then b'0' + (d - 52)
    else if d == 62
    then b'-'
    else b'_'

-- `base64.RawURLEncoding.EncodeToString`: no padding.
unfoldable pub url_encode : Bytes → Bytes
unfolding url_digit
url_encode [] = []
url_encode (a ∷ []) = url_digit (a / 4) ∷ url_digit (a % 4 * 16) ∷ []
url_encode (a ∷ b ∷ []) =
    url_digit (a / 4) ∷ url_digit (a % 4 * 16 + b / 16) ∷ url_digit (b % 16 * 4) ∷ []
url_encode (a ∷ b ∷ c ∷ s) =
    url_digit (a / 4)
    ∷ url_digit (a % 4 * 16 + b / 16)
    ∷ url_digit (b % 16 * 4 + c / 64)
    ∷ url_digit (c % 64)
    ∷ url_encode s

-- `make([]byte, nBytes)`, with the bytes that `rand.Read` puts in it: it fills the whole slice. The
-- source is the list of bytes, taken to go on with zeros.
unfoldable pub fill : ℕ → Bytes → Bytes
fill zero source = []
fill (suc n) [] = 0 ∷ fill n []
fill (suc n) (c ∷ source) = c ∷ fill n source

-- `randomToken` of `nBytes`. The other argument is the source of `rand.Read`, or `none` for its
-- error.
unfoldable pub random_token : ℕ → Option Bytes → Option Bytes
unfolding url_encode fill
random_token n none = none
random_token n (some source) = some (url_encode (fill n source))

-- `GeneratePassword`.
unfoldable pub generate_password : ℕ → Option Bytes → Option Bytes
unfolding random_token
generate_password = random_token

-- golang.org/x/crypto/bcrypt: a hash is made with a random salt, or refused; a comparison answers.
pub record Bcrypt : Type 0 where
  pub generate : Bytes → Bytes → Option Bytes
  pub compare_hash : Bytes → Bytes → Bool

-- `HashPassword`, with the salt that bcrypt draws.
unfoldable pub hash_password : Bcrypt → Bytes → Bytes → Option Bytes
hash_password b salt plain = b.generate salt plain

-- `VerifyPassword`.
unfoldable pub verify_password : Bcrypt → Bytes → Bytes → Bool
verify_password b hash plain = if bytes_eq hash [] then false else b.compare_hash hash plain
