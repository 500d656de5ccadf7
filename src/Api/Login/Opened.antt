-- ===== src/Api/Login/Opened.antt =====
-- What a login that succeeds gives.
use mathlib.Core.Path.{subst}
use mdtree.Prelude.{
  ◌≢◌, ℕ, ◌+◌, Bytes, ◌≡◌, refl, sym, ap, ◌∙◌, Bool, true, false, not, [], ◌∷◌, Option, none, some,
  arith, ltb, if◌then◌else◌,
}
use mdtree.Prelude.Assoc
use mdtree.Prelude.Assoc.{lookup-insert}
use mdtree.Auth.Token.{Bcrypt, verify_password, url_encode, fill, random_token}
use mdtree.Auth.Session
use mdtree.Auth.Session.{Session, SessionStore}
use mdtree.Auth.RateLimiter.{RateLimiter, allowed, fail, reset}
use mdtree.Auth.Cookie.{Authenticator, set_cookie}
use mdtree.Api.Login.{AuthState, Reply, Attempt, plain_reply, sign_in, login, compare_password}

module _ (b : Bcrypt) (a : Authenticator) (hash : Bytes) where
  sign_in-session :
      (r : Attempt) (l : RateLimiter) (x : Option Session × SessionStore)
      → (sign_in b a hash r l x).0.status ≡ 200
      → (sess : Session) × (x.0 ≡ some sess)
        × ((sign_in b a hash r l x).0.cookie ≡ some (set_cookie a r.times.sent sess))
        × ((sign_in b a hash r l x).1.sessions ≡ x.1)
  sign_in-session r l (none, store) q = absurd (omega (arith, q))
  sign_in-session r l (some sess, store) q = (sess, refl, refl, refl)

  -- The reply of a login that succeeded.
  abbrev Opened : Attempt → SessionStore → Reply × AuthState → Type 0
  Opened r store x =
      (password : Bytes) × (sess : Session) × (r.password ≡ some password)
      × (verify_password b hash password ≡ true)
      × ((Session.create r.random r.times.created store).0 ≡ some sess)
      × (x.0.cookie ≡ some (set_cookie a r.times.sent sess))
      × (x.1.sessions ≡ (Session.create r.random r.times.created store).1)

  compare_password-Opened :
      (r : Attempt) (p : Option Bytes) (s : AuthState)
      → r.password ≡ p
      → (compare_password b a hash r p s).0.status ≡ 200
      → Opened r s.sessions (compare_password b a hash r p s)
  compare_password-Opened r none s e q = absurd (omega (arith, q))
  compare_password-Opened r (some password) s e q =
      by_answer (verify_password b hash password) refl q
    where
      by_answer :
          (v : Bool)
          → verify_password b hash password ≡ v
          → (if v
              then sign_in b a hash r
                  (reset r.ip s.limiter)
                  (Session.create r.random r.times.created s.sessions)
              else (
                plain_reply 401,
                record s { limiter = fail r.ip r.times.counted s.limiter },
              )).0.status
            ≡ 200
          → Opened r s.sessions (
              if v
              then sign_in b a hash r
                  (reset r.ip s.limiter)
                  (Session.create r.random r.times.created s.sessions)
              else (plain_reply 401, record s { limiter = fail r.ip r.times.counted s.limiter }))
      by_answer false v q = absurd (omega (arith, q))
      by_answer true v q =
          let (sess, made, sent, kept) =
            sign_in-session r (reset r.ip s.limiter)
              (Session.create r.random r.times.created s.sessions) q in
          (password, sess, e, v, made, sent, kept)

  login-Opened :
      (r : Attempt) (s : AuthState)
      → (login b a hash r s).0.status ≡ 200
      → Opened r s.sessions (login b a hash r s)
  unfolding login
  login-Opened r s q =
      by_limit (allowed r.ip r.times.checked s.limiter).0 (allowed r.ip r.times.checked s.limiter).1
        q
    where
      by_limit :
          (v : Bool) (l : RateLimiter)
          → (if v
              then compare_password b a hash r r.password (record s { limiter = l })
              else (plain_reply 429, record s { limiter = l })).0.status
            ≡ 200
          → Opened r s.sessions (
              if v
              then compare_password b a hash r r.password (record s { limiter = l })
              else (plain_reply 429, record s { limiter = l }))
      by_limit false l q = absurd (omega (arith, q))
      by_limit true l q = compare_password-Opened r r.password (record s { limiter = l }) refl q

url_encode_filled : (c : ℕ) (cs : Bytes) → url_encode (c ∷ cs) ≢ []
unfolding url_encode
url_encode_filled c [] e = cc
url_encode_filled c (d ∷ []) e = cc
url_encode_filled c (d ∷ f ∷ cs) e = cc

fresh-validate :
    (t : Bytes) (now later : ℕ) (store : SessionStore)
    → t ≢ []
    → (Session.validate t later (record store {
      sessions =
          Assoc.insert t
            (record { token = t; created = now; expires = now + store.ttl })
            store.sessions;
    })).0
      ≡ not (ltb (now + store.ttl) later)
unfolding Session.validate
fresh-validate t now later store n = ground (
  arith,
  lookup-insert t t (record { token = t; created = now; expires = now + store.ttl }) store.sessions,
)

abbrev token_of : Option Session → Bytes
token_of none = []
token_of (some sess) = sess.token

created-validate :
    (c : ℕ) (cs : Bytes) (now later : ℕ) (store : SessionStore) (sess : Session)
    → (Session.create (some (c ∷ cs)) now store).0 ≡ some sess
    → (Session.validate sess.token later (Session.create (some (c ∷ cs)) now store).1).0
      ≡ not (ltb (now + store.ttl) later)
unfolding Session.create random_token fill
created-validate c cs now later store sess e =
    subst
      (λ t.
        (Session.validate t later (Session.create (some (c ∷ cs)) now store).1).0
        ≡ not (ltb (now + store.ttl) later))
      (ap token_of e)
      (fresh-validate (url_encode (c ∷ fill 31 cs)) now later store
        (url_encode_filled c (fill 31 cs)))

-- A login that is answered 200 had the right password, and sends the cookie of a session that is
-- valid from then on until its lifetime has passed, and not after.
pub login-validate :
    (b : Bcrypt) (a : Authenticator) (hash : Bytes) (r : Attempt) (s : AuthState) (c : ℕ)
    (cs : Bytes) (later : ℕ)
    → (login b a hash r s).0.status ≡ 200
    → r.random ≡ some (c ∷ cs)
    → (password : Bytes) × (sess : Session) × (r.password ≡ some password)
      × (verify_password b hash password ≡ true)
      × ((login b a hash r s).0.cookie ≡ some (set_cookie a r.times.sent sess))
      × ((Session.validate sess.token later (login b a hash r s).1.sessions).0
          ≡ not (ltb (r.times.created + s.sessions.ttl) later))
login-validate b a hash r s c cs later q e =
    let (password, sess, p, v, made, sent, kept) = login-Opened b a hash r s q in
    let made' = ap (λ x. (Session.create x r.times.created s.sessions).0) (sym e) ∙ made in
    (
      password,
      sess,
      p,
      v,
      sent,
      ap (λ x. (Session.validate sess.token later x).0)
            (kept ∙ ap (λ x. (Session.create x r.times.created s.sessions).1) e)
          ∙ created-validate c cs r.times.created later s.sessions sess made',
    )
