-- ===== src/Server/Guarded.antt =====
-- What a request without a session can see and do.
use mdtree.Prelude.{ℕ, ◌≡◌, ◌∙◌, refl, ap, false, List}
use mdtree.Fs.Node.{Fs}
use mdtree.Search.Index.{Index}
use mdtree.Auth.Session.{SessionStore}
use mdtree.Auth.Session.History.{Event, after, AllNotAfter}
use mdtree.Auth.Cookie.{Cookies, authenticated}
use mdtree.Auth.Middleware.{Handler, middleware, unauthorized}
use mdtree.Auth.Middleware.Guard.{is_signed_in, middleware-is_signed_in}
use mdtree.Api.Login.{AuthState, Reply}
use mdtree.Api.Handler.{World, Request}
use mdtree.Api.Endpoint.{endpoint}
use mdtree.Server.{
  Server, Route, healthz, login, logout, auth_status, guarded, Picked, matched, api_missing,
  other_missing, answered, Answer, on_auth, serve_route, serve_picked, serve_http, routes,
}

-- Other files and another index.
abbrev pub swap : Fs → Index → World → World
swap fs idx w = record w { fs = fs; index = idx }

abbrev swapped : {A : Type 0} → Fs → Index → A × (SessionStore × World) → A × (SessionStore × World)
swapped fs idx (a, (s, w)) = (a, (s, swap fs idx w))

on_auth-swap :
    (answer : Reply → Answer) (f : AuthState → Reply × AuthState) (fs : Fs) (idx : Index)
    (s : SessionStore) (w : World)
    → on_auth answer f (s, swap fs idx w) ≡ swapped fs idx (on_auth answer f (s, w))
on_auth-swap answer f fs idx s w = refl

unsigned-middleware :
    (next : Handler World) (ttl : ℕ) (h : List Event) (cs : Cookies) (now : ℕ) (w : World)
    → AllNotAfter now h
    → is_signed_in ttl h cs now ≡ false
    → middleware next cs now (after ttl h, w)
      ≡ (unauthorized, ((authenticated cs now (after ttl h)).1, w))
unsigned-middleware next ttl h cs now w n q =
    middleware-is_signed_in next ttl h cs now w n ∙ rw q refl

module _ (sv : Server) (ttl : ℕ) (h : List Event) (fs : Fs) (idx : Index) where
  serve_route-swap :
      (route : Route) (r : Request) (w : World)
      → AllNotAfter r.clock.guarded h
      → is_signed_in ttl h r.cookies r.clock.guarded ≡ false
      → serve_route sv route r (after ttl h, swap fs idx w)
        ≡ swapped fs idx (serve_route sv route r (after ttl h, w))
  unfolding serve_route
  serve_route-swap healthz r w n q = refl
  serve_route-swap login r w n q = refl
  serve_route-swap logout r w n q = refl
  serve_route-swap auth_status r w n q = refl
  serve_route-swap (guarded e) r w n q =
      rw
        (
          unsigned-middleware (endpoint sv.api e r) ttl h r.cookies r.clock.guarded w n q,
          unsigned-middleware (endpoint sv.api e r) ttl h r.cookies r.clock.guarded (swap fs idx w)
              n q,
        )
        refl

  serve_picked-swap :
      (p : Picked) (r : Request) (w : World)
      → AllNotAfter r.clock.guarded h
      → is_signed_in ttl h r.cookies r.clock.guarded ≡ false
      → serve_picked sv p r (after ttl h, swap fs idx w)
        ≡ swapped fs idx (serve_picked sv p r (after ttl h, w))
  unfolding serve_picked
  serve_picked-swap (matched route) r w n q = serve_route-swap route r w n q
  serve_picked-swap api_missing r w n q = refl
  serve_picked-swap other_missing r w n q = refl
  serve_picked-swap (answered res) r w n q = refl

  serve_http-swap :
      (r : Request) (w : World)
      → AllNotAfter r.clock.guarded h
      → is_signed_in ttl h r.cookies r.clock.guarded ≡ false
      → serve_http sv r (after ttl h, swap fs idx w)
        ≡ swapped fs idx (serve_http sv r (after ttl h, w))
  unfolding serve_http
  serve_http-swap r w n q =
      let r' : Request = record r { remote_addr = sv.real_ip r } in
      rw (serve_picked-swap (sv.pick routes r') r' w n q) refl

-- A request whose cookie names no live session, whatever its route and method, is answered the same
-- whatever files there are and whatever the index holds, and changes neither.
pub serve_http-unsigned :
    (sv : Server) (ttl : ℕ) (h : List Event) (fs : Fs) (idx : Index) (r : Request) (w : World)
    → AllNotAfter r.clock.guarded h
    → is_signed_in ttl h r.cookies r.clock.guarded ≡ false
    → ((serve_http sv r (after ttl h, swap fs idx w)).0 ≡ (serve_http sv r (after ttl h, w)).0)
      × ((serve_http sv r (after ttl h, w)).1.1.fs ≡ w.fs)
      × ((serve_http sv r (after ttl h, w)).1.1.index ≡ w.index)
serve_http-unsigned sv ttl h fs idx r w n q = (
  ap (λ x. x.0) (serve_http-swap sv ttl h fs idx r w n q),
  ap (λ x. x.1.1.fs) (serve_http-swap sv ttl h w.fs w.index r w n q),
  ap (λ x. x.1.1.index) (serve_http-swap sv ttl h w.fs w.index r w n q),
)
