-- ===== src/Auth.antt =====
-- internal/auth: passwords, sessions, the login rate limit and the session cookie.
pub mod Token
pub mod Session
pub mod RateLimiter
pub mod Cookie
pub mod Middleware
