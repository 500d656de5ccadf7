-- ===== src/Auth/Middleware.antt =====
-- `Middleware` of internal/auth/middleware.go, around a handler that may change the session store
-- and whatever else the server holds.
pub mod Guard
use mdtree.Prelude.{ℕ, Bytes, bytes, if◌then◌else◌}
use mdtree.Auth.Session.{SessionStore}
use mdtree.Auth.Cookie.{Cookies, authenticated}

pub record Response : Type 0 where
  pub status : ℕ
  pub content_type : Bytes
  pub body : Bytes

abbrev pub unauthorized : Response
unauthorized = record {
  status = 401;
  content_type = bytes "application/json; charset=utf-8";
  body = bytes "{\"error\":\"authentication required\"}";
}

-- What is left of the server's state is `World`.
abbrev pub Handler : Type 0 → Type 0
Handler World = SessionStore × World → Response × (SessionStore × World)

unfoldable pub middleware : {World : Type 0} → Handler World → Cookies → ℕ → Handler World
middleware next cs now (s, w) =
    let (valid, s') = authenticated cs now s in
    if valid then next (s', w) else (unauthorized, (s', w))
