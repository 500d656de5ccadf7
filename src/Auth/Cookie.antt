-- ===== src/Auth/Cookie.antt =====
-- `Authenticator` of internal/auth/middleware.go: the session cookie and the guard of the handlers.
use mdtree.Prelude.{
  ℕ, ◌-◌, ◌/◌, Bytes, bytes, bytes_eq, Bool, true, List, [], ◌∷◌, Option, none, some, if◌then◌else◌,
}
use mdtree.Prelude.Int.{ℤ, pos, negsuc}
use mdtree.Auth.Session.{Session, SessionStore, validate}

abbrev pub cookie_name : Bytes
cookie_name = bytes "mdtree_session"

pub data SameSite : Type 0 where
  strict : SameSite

pub record Cookie : Type 0 where
  pub name : Bytes
  pub value : Bytes
  pub path : Bytes
  pub expires : Option ℕ
  pub max_age : ℤ
  pub http_only : Bool
  pub secure : Bool
  pub same_site : SameSite

pub record Authenticator : Type 0 where
  pub secure : Bool

-- `int(time.Until(t).Seconds())`, for an instant that is not past.
abbrev seconds_until : ℕ → ℕ → ℤ
seconds_until now t = pos ((t - now) / 1000000000)

-- The cookie that `SetCookie` sends.
unfoldable pub set_cookie : Authenticator → ℕ → Session → Cookie
set_cookie a now sess = record {
  name = cookie_name;
  value = sess.token;
  path = bytes "/";
  expires = some sess.expires;
  max_age = seconds_until now sess.expires;
  http_only = true;
  secure = a.secure;
  same_site = strict;
}

unfoldable pub clear_cookie : Authenticator → Cookie
clear_cookie a = record {
  name = cookie_name;
  value = [];
  path = bytes "/";
  expires = none;
  max_age = negsuc 0;
  http_only = true;
  secure = a.secure;
  same_site = strict;
}

-- The cookies of a request: names and values, the first of a name counts.
abbrev pub Cookies : Type 0
Cookies = List (Bytes × Bytes)

unfoldable pub token : Cookies → Bytes
token [] = []
token ((name, value) ∷ cs) = if bytes_eq name cookie_name then value else token cs

unfoldable pub authenticated : Cookies → ℕ → SessionStore → Bool × SessionStore
unfolding token validate
authenticated cs now s = validate (token cs) now s
