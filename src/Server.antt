-- ===== src/Server.antt =====
-- `New` of internal/server/server.go and `requestLogger` of middleware.go: the routes, and what
-- stands around their handlers. The router of package chi, which picks the route, and its
-- middleware `RealIP` are parameters; no handler panics, so `Recoverer` does nothing.
pub mod Static
pub mod Events
pub mod Guarded
use mdtree.Prelude.{
  ℕ, ◌-◌, Bytes, bytes, Bool, true, false, List, [], ◌∷◌, Option, none, some, leb, length, ◌==◌,
  if◌then◌else◌,
}
use mdtree.Auth.Session.{SessionStore}
use mdtree.Auth.Cookie.{Cookie}
use mdtree.Auth.Middleware.{Response, middleware}
use mdtree.Metrics.Recorder.{Call, write_header, write, Wire, new_wire}
use mdtree.Metrics.Recorder
use mdtree.Logger.{Level}
use mdtree.Logger
use mdtree.Api.Login.{AuthState, Reply, Attempt}
use mdtree.Api.Login
use mdtree.Api.Handler.{
  Handler, World, Request, Value, error_value, ok_value, authenticated_value, write_json,
  decode_json, client_ip, json_type,
}
use mdtree.Api.Endpoint.{Endpoint, endpoint}
use mdtree.Api.Endpoint
use mdtree.Server.Static.{Dist, spa_handler}

pub data Route : Type 0 where
  healthz login logout auth_status : Route
  guarded : Endpoint → Route

abbrev pub routes : List (Bytes × Bytes × Route)
routes =
    (bytes "GET", bytes "/healthz", healthz)
    ∷ (bytes "POST", bytes "/api/auth/login", login)
    ∷ (bytes "POST", bytes "/api/auth/logout", logout)
    ∷ (bytes "GET", bytes "/api/auth/status", auth_status)
    ∷ (bytes "GET", bytes "/api/tree", guarded Endpoint.tree)
    ∷ (bytes "GET", bytes "/api/file", guarded Endpoint.get_file)
    ∷ (bytes "POST", bytes "/api/file", guarded Endpoint.create_file)
    ∷ (bytes "PUT", bytes "/api/file", guarded Endpoint.save_file)
    ∷ (bytes "DELETE", bytes "/api/file", guarded Endpoint.delete_file)
    ∷ (bytes "POST", bytes "/api/file/rename", guarded Endpoint.rename_file)
    ∷ (bytes "POST", bytes "/api/dir", guarded Endpoint.mkdir)
    ∷ (bytes "DELETE", bytes "/api/dir", guarded Endpoint.delete_dir)
    ∷ (bytes "POST", bytes "/api/dir/rename", guarded Endpoint.rename_dir)
    ∷ (bytes "GET", bytes "/api/search", guarded Endpoint.search)
    ∷ (bytes "POST", bytes "/api/search/reindex", guarded Endpoint.reindex)
    ∷ (bytes "GET", bytes "/api/stats", guarded Endpoint.stats)
    ∷ []

-- What the router finds for a request: a route, no route below /api, no route elsewhere, or its own
-- answer to a method that the path does not have.
pub data Picked : Type 0 where
  matched : Route → Picked
  api_missing other_missing : Picked
  answered : Response → Picked

-- The handlers and the embedded files, and the parameters: RealIP, the router, and the texts that
-- numbers and durations have in the log.
pub record Server : Type 0 where
  pub api : Handler
  pub dist : Dist
  pub real_ip : Request → Bytes
  pub show_int : ℕ → Bytes
  pub show_duration : ℕ → Bytes
  pub pick : List (Bytes × Bytes × Route) → Request → Picked

pub record Answer : Type 0 where
  pub response : Response
  pub cookie : Option Cookie
  pub retry_after : Option Bytes

abbrev pub plain : Response → Answer
plain r = record { response = r; cookie = none; retry_after = none }

-- The bodies of `Login`, told apart by its statuses.
abbrev pub login_value : ℕ → Value
login_value s =
    if s == 429
    then error_value (bytes "too many attempts, try again later")
    else if s == 400
    then error_value (bytes "invalid request body")
    else if s == 401
    then error_value (bytes "invalid password")
    else if s == 500
    then error_value (bytes "could not create session")
    else ok_value

abbrev pub login_answer : Handler → Reply → Answer
login_answer h p = record {
  response = write_json h p.status (login_value p.status);
  cookie = p.cookie;
  retry_after = if p.status == 429 then some (bytes "60") else none;
}

abbrev pub logout_answer : Handler → Reply → Answer
logout_answer h p = record {
  response = write_json h p.status ok_value;
  cookie = p.cookie;
  retry_after = none;
}

abbrev pub status_answer : Handler → Reply → Answer
status_answer h p = plain (write_json h p.status (authenticated_value p.authenticated))

abbrev password_of : Option (Bytes → Bytes) → Option Bytes
password_of none = none
password_of (some req) = some (req (bytes "password"))

-- What `Login` takes from a request.
abbrev pub attempt : Handler → Request → Attempt
attempt h r = record {
  ip = client_ip r;
  password = password_of (decode_json h (bytes "password" ∷ []) r);
  random = r.random;
  times = r.clock.login;
}

-- An endpoint of internal/api/auth.go, on its part of the state.
abbrev pub on_auth :
    (Reply → Answer)
    → (AuthState → Reply × AuthState)
    → SessionStore × World
    → Answer × (SessionStore × World)
on_auth answer f (s, w) =
    let (p, a) = f (record { limiter = w.limiter; sessions = s }) in
    (answer p, (a.sessions, record w { limiter = a.limiter }))

abbrev healthy : Response
healthy = record { status = 200; content_type = json_type; body = bytes "{\"status\":\"ok\"}" }

abbrev not_found : Response
not_found = record {
  status = 404;
  content_type = json_type;
  body = bytes "{\"error\":\"not found\"}";
}

abbrev answer_plain : Response × (SessionStore × World) → Answer × (SessionStore × World)
answer_plain (res, x) = (plain res, x)

-- An explicit status of 200 is as good as none.
abbrev pub calls : Response → List Call
calls res = write_header res.status ∷ write res.body ∷ []

unfoldable pub request_level : ℕ → Level
request_level status =
    if leb 500 status then Level.error else if leb 400 status then Level.warn else Level.info

-- The line of `requestLogger`. The writer of package chi counts the bytes of the body.
unfoldable pub request_record : (ℕ → Bytes) → (ℕ → Bytes) → Request → Wire → Logger.Record
request_record show_int show_duration r wire = record {
  level = request_level wire.status;
  message = bytes "request";
  attrs =
      record { key = bytes "method"; value = r.method }
      ∷ record { key = bytes "path"; value = r.path }
      ∷ record { key = bytes "status"; value = show_int wire.status }
      ∷ record { key = bytes "bytes"; value = show_int (length wire.body) }
      ∷ record {
        key = bytes "duration";
        value = show_duration (r.clock.log_ended - r.clock.log_started);
      }
      ∷ record { key = bytes "ip"; value = r.remote_addr }
      ∷ [];
}

pub record Served : Type 0 where
  pub answer : Answer
  pub wire : Wire
  pub line : Logger.Record

module _ (sv : Server) where
  unfoldable pub serve_route :
      Route → Request → SessionStore × World → Answer × (SessionStore × World)
  serve_route healthz r x = (plain healthy, x)
  serve_route login r x =
      on_auth (login_answer sv.api)
        (Login.login sv.api.bcrypt sv.api.auth sv.api.password_hash (attempt sv.api r)) x
  serve_route logout r x = on_auth (logout_answer sv.api) (Login.logout sv.api.auth r.cookies) x
  serve_route auth_status r x =
      on_auth (status_answer sv.api) (Login.status r.cookies r.clock.guarded) x
  serve_route (guarded e) r x =
      answer_plain (middleware (endpoint sv.api e r) r.cookies r.clock.guarded x)

  unfoldable pub serve_picked :
      Picked → Request → SessionStore × World → Answer × (SessionStore × World)
  serve_picked (matched route) r x = serve_route route r x
  serve_picked api_missing r x = (plain not_found, x)
  serve_picked other_missing r x = (plain (spa_handler sv.dist r.path), x)
  serve_picked (answered res) r x = (plain res, x)

  unfoldable pub serve_http : Request → SessionStore × World → Served × (SessionStore × World)
  serve_http r x =
      let r' : Request = record r { remote_addr = sv.real_ip r } in
      let (a, (s, w)) = serve_picked (sv.pick routes r') r' x in
      let (wire, m) =
        Recorder.middleware (calls a.response) r.clock.started r.clock.ended new_wire w.metrics in
      (
        record {
          answer = a;
          wire = wire;
          line = request_record sv.show_int sv.show_duration r' wire;
        },
        (s, record w { metrics = m }),
      )
