-- ===== src/Api/Login.antt =====
-- `Login`, `Logout` and `Status` of internal/api/auth.go, and `resolvePassword` of
-- cmd/mdtree/main.go. A reply has its status, its cookie, and what `Status` answers; the bodies and
-- the constant header of a refused login are left out.
pub mod Steps
pub mod Counted
pub mod Attempts
pub mod Opened
use mdtree.Prelude.{ℕ, Bytes, bytes_eq, Bool, true, false, [], Option, none, some, if◌then◌else◌}
use mdtree.Auth.Token.{Bcrypt, verify_password, hash_password, generate_password}
use mdtree.Auth.Session.{Session, SessionStore}
use mdtree.Auth.Session
use mdtree.Auth.RateLimiter.{RateLimiter, allowed, fail, reset}
use mdtree.Auth.Cookie.{
  Authenticator, Cookie, Cookies, set_cookie, clear_cookie, token, authenticated,
}
use mdtree.Config.{Config}

-- The part of `Handler` that these endpoints use.
pub record AuthState : Type 0 where
  pub limiter : RateLimiter
  pub sessions : SessionStore

pub record Reply : Type 0 where
  pub status : ℕ
  pub cookie : Option Cookie
  pub authenticated : Bool

abbrev pub plain_reply : ℕ → Reply
plain_reply status = record { status = status; cookie = none; authenticated = false }

-- The clock readings of a request, in the order in which they are taken: by `Allowed`, by `Fail`,
-- by `Create`, and for the age of the cookie.
pub record Times : Type 0 where
  pub checked : ℕ
  pub counted : ℕ
  pub created : ℕ
  pub sent : ℕ

-- A request: the client's address, the password in its body, if that decodes, and the random bytes
-- that a session would get.
pub record Attempt : Type 0 where
  pub ip : Bytes
  pub password : Option Bytes
  pub random : Option Bytes
  pub times : Times

module _ (b : Bcrypt) (a : Authenticator) (hash : Bytes) where
  abbrev pub sign_in : Attempt → RateLimiter → Option Session × SessionStore → Reply × AuthState
  sign_in r limiter (none, store) =
      (plain_reply 500, record { limiter = limiter; sessions = store })
  sign_in r limiter (some sess, store) = (
    record { status = 200; cookie = some (set_cookie a r.times.sent sess); authenticated = false },
    record { limiter = limiter; sessions = store },
  )

  -- The comparison with the password's hash, and what follows it.
  abbrev pub compare_password : Attempt → Option Bytes → AuthState → Reply × AuthState
  compare_password r none s = (plain_reply 400, s)
  compare_password r (some password) s =
      if verify_password b hash password
      then sign_in r (reset r.ip s.limiter) (Session.create r.random r.times.created s.sessions)
      else (plain_reply 401, record s { limiter = fail r.ip r.times.counted s.limiter })

  -- A request that no other comes between; Login/Steps has the two steps of one that runs beside
  -- others.
  unfoldable pub login : Attempt → AuthState → Reply × AuthState
  login r s =
      let (may_try, limiter) = allowed r.ip r.times.checked s.limiter in
      if may_try
      then compare_password r r.password (record s { limiter = limiter })
      else (plain_reply 429, record s { limiter = limiter })

unfoldable pub logout : Authenticator → Cookies → AuthState → Reply × AuthState
logout a cs s = (
  record { status = 200; cookie = some (clear_cookie a); authenticated = false },
  if bytes_eq (token cs) []
      then s
      else record s { sessions = Session.delete (token cs) s.sessions },
)

unfoldable pub status : Cookies → ℕ → AuthState → Reply × AuthState
status cs now s =
    let (valid, store) = authenticated cs now s.sessions in
    (record { status = 200; cookie = none; authenticated = valid }, record s { sessions = store })

abbrev pub hash_generated : Bcrypt → Bytes → Option Bytes → Option Bytes
hash_generated b salt none = none
hash_generated b salt (some plain) = hash_password b salt plain

-- The hash that logins are compared with: a given hash, a given password hashed, or a random
-- password hashed.
unfoldable pub resolve_password : Bcrypt → Bytes → Option Bytes → Config → Option Bytes
resolve_password b salt random cfg =
    if bytes_eq cfg.auth.password_hash []
    then (if bytes_eq cfg.auth.password []
        then hash_generated b salt (generate_password 18 random)
        else hash_password b salt cfg.auth.password)
    else some cfg.auth.password_hash
