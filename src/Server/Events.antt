-- ===== src/Server/Events.antt =====
-- What a request does to the session store, as calls of it, and that it keeps the index in order.
use mdtree.Prelude.{
  ℕ, Bytes, bytes_eq, ◌≡◌, ◌∙◌, refl, Bool, true, false, List, [], ◌∷◌, Option, none, some, arith,
  ◌==◌, if◌then◌else◌,
}
use mdtree.Auth.Token.{Bcrypt, random_token, verify_password}
use mdtree.Auth.Session
use mdtree.Auth.Session.{Session, SessionStore}
use mdtree.Auth.Session.History.{Event, created, validated, deleted, apply}
use mdtree.Auth.RateLimiter.{RateLimiter, allowed, fail, reset}
use mdtree.Auth.Cookie.{Authenticator, token, authenticated}
use mdtree.Auth.Middleware.{middleware, unauthorized}
use mdtree.Api.Login.{
  AuthState, Reply, Attempt, plain_reply, sign_in, login, logout, status, compare_password,
}
use mdtree.Api.Handler.{World, Request, write_json}
use mdtree.Api.Endpoint.{Endpoint, endpoint}
use mdtree.Api.Endpoint.Kept.{Kept, unchanged, endpoint-Kept}
use mdtree.Server.{
  Server, Route, healthz, guarded, auth_status, Picked, matched, api_missing, other_missing,
  answered, serve_route, serve_picked, attempt,
}

-- The calls of the session store that a route makes, the answer's status known.
abbrev pub route_events : Route → Request → ℕ → List Event
route_events healthz r status = []
route_events Route.login r status =
    if status == 200 then created r.random r.clock.login.created ∷ [] else []
route_events Route.logout r status =
    if bytes_eq (token r.cookies) [] then [] else deleted (token r.cookies) ∷ []
route_events auth_status r status = validated (token r.cookies) r.clock.guarded ∷ []
route_events (guarded e) r status = validated (token r.cookies) r.clock.guarded ∷ []

abbrev pub picked_events : Picked → Request → ℕ → List Event
picked_events (matched route) r status = route_events route r status
picked_events api_missing r status = []
picked_events other_missing r status = []
picked_events (answered res) r status = []

abbrev pub apply_all : List Event → SessionStore → SessionStore
apply_all [] s = s
apply_all (e ∷ es) s = apply e (apply_all es s)

create-none :
    (random : Option Bytes) (now : ℕ) (s : SessionStore)
    → (Session.create random now s).0 ≡ none
    → (Session.create random now s).1 ≡ s
unfolding Session.create random_token
create-none none now s q = refl
create-none (some b) now s q = cc

module _ (b : Bcrypt) (a : Authenticator) (hash : Bytes) (r : Attempt) where
  -- A session is made exactly where the reply is 200.
  abbrev made_if : SessionStore → Reply × AuthState → SessionStore
  made_if s x = if x.0.status == 200 then (Session.create r.random r.times.created s).1 else s

  sign_in-sessions :
      (l : RateLimiter) (x : Option Session × SessionStore) (s : SessionStore)
      → (x.0 ≡ none → x.1 ≡ s)
      → (sign_in b a hash r l x).1.sessions
        ≡ (if (sign_in b a hash r l x).0.status == 200 then x.1 else s)
  sign_in-sessions l (none, store) s h = h refl
  sign_in-sessions l (some sess, store) s h = refl

  compare_password-sessions :
      (p : Option Bytes) (s : AuthState)
      → (compare_password b a hash r p s).1.sessions
        ≡ made_if s.sessions (compare_password b a hash r p s)
  compare_password-sessions none s = refl
  compare_password-sessions (some password) s = by_answer (verify_password b hash password)
    where
      answer : Bool → Reply × AuthState
      answer v =
          if v
          then sign_in b a hash r (reset r.ip s.limiter)
              (Session.create r.random r.times.created s.sessions)
          else (plain_reply 401, record s { limiter = fail r.ip r.times.counted s.limiter })

      by_answer : (v : Bool) → (answer v).1.sessions ≡ made_if s.sessions (answer v)
      by_answer false = refl
      by_answer true =
          sign_in-sessions (reset r.ip s.limiter)
            (Session.create r.random r.times.created s.sessions) s.sessions
            (create-none r.random r.times.created s.sessions)

  login-sessions :
      (s : AuthState) → (login b a hash r s).1.sessions ≡ made_if s.sessions (login b a hash r s)
  unfolding login
  login-sessions s =
      by_limit (allowed r.ip r.times.checked s.limiter).0 (allowed r.ip r.times.checked s.limiter).1
    where
      answer : Bool → RateLimiter → Reply × AuthState
      answer v l =
          if v
          then compare_password b a hash r r.password (record s { limiter = l })
          else (plain_reply 429, record s { limiter = l })

      by_limit :
          (v : Bool) (l : RateLimiter) → (answer v l).1.sessions ≡ made_if s.sessions (answer v l)
      by_limit false l = refl
      by_limit true l = compare_password-sessions r.password (record s { limiter = l })

module _ (sv : Server) (r : Request) (s : SessionStore) (w : World) where
  -- The session store has taken the calls, and the rest is in order.
  abbrev pub Takes : List Event → SessionStore × World → Type 0
  Takes es x = (x.0 ≡ apply_all es s) × Kept sv.api.cases w x.1

  apply_made :
      (n : ℕ)
      → (if n == 200 then (Session.create r.random r.clock.login.created s).1 else s)
        ≡ apply_all (route_events Route.login r n) s
  apply_made n = ground arith

  guarded-Takes :
      (e : Endpoint)
      → Takes
          (validated (token r.cookies) r.clock.guarded ∷ [])
          (middleware (endpoint sv.api e r) r.cookies r.clock.guarded (s, w)).1
  unfolding middleware authenticated
  guarded-Takes e =
      by_answer (Session.validate (token r.cookies) r.clock.guarded s).0
        (Session.validate (token r.cookies) r.clock.guarded s).1
    where
      by_answer :
          (v : Bool) (s' : SessionStore)
          → ((if v then endpoint sv.api e r (s', w) else (unauthorized, (s', w))).1.0 ≡ s')
            × Kept sv.api.cases w
                (if v then endpoint sv.api e r (s', w) else (unauthorized, (s', w))).1.1
      by_answer true s' = endpoint-Kept sv.api e r s' w
      by_answer false s' = (refl, unchanged sv.api.cases w)

  serve_route-Takes :
      (route : Route)
      → Takes
          (route_events route r (serve_route sv route r (s, w)).0.response.status)
          (serve_route sv route r (s, w)).1
  unfolding serve_route write_json logout status authenticated
  serve_route-Takes healthz = (refl, unchanged sv.api.cases w)
  serve_route-Takes Route.login = (
    login-sessions sv.api.bcrypt sv.api.auth sv.api.password_hash (attempt sv.api r)
          (record { limiter = w.limiter; sessions = s })
        ∙ apply_made _,
    unchanged sv.api.cases w,
  )
  serve_route-Takes Route.logout = (ground arith, unchanged sv.api.cases w)
  serve_route-Takes auth_status = (refl, unchanged sv.api.cases w)
  serve_route-Takes (guarded e) = guarded-Takes e

  pub serve_picked-Takes :
      (p : Picked)
      → Takes
          (picked_events p r (serve_picked sv p r (s, w)).0.response.status)
          (serve_picked sv p r (s, w)).1
  unfolding serve_picked
  serve_picked-Takes (matched route) = serve_route-Takes route
  serve_picked-Takes api_missing = (refl, unchanged sv.api.cases w)
  serve_picked-Takes other_missing = (refl, unchanged sv.api.cases w)
  serve_picked-Takes (answered res) = (refl, unchanged sv.api.cases w)
