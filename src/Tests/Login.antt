-- ===== src/Tests/Login.antt =====
-- Guessing a password, and logging in with the right one.
use mdtree.Prelude.{
  ℕ, ◌+◌, Bytes, bytes, bytes_eq, bytes_discrete, ℕ_discrete, ◌≡◌, refl, true, not, List, [], ◌∷◌,
  some, ltb,
}
use mdtree.Prelude.Assoc
use mdtree.Auth.Token.{Bcrypt, verify_password, random_token, fill, url_encode, url_digit}
use mdtree.Auth.Session
use mdtree.Auth.Session.{Session, new_session_store}
use mdtree.Auth.RateLimiter.{new_rate_limiter, current, allowed, fail, reset}
use mdtree.Auth.Cookie.{Authenticator, set_cookie}
use mdtree.Api.Login.{AuthState, Attempt, login}
use mdtree.Api.Login.Steps.{LoginStep, arrives, compares, Running, take_out, step, guesses}
use mdtree.Api.Login.Opened.{login-validate}

-- A hash that is the password itself.
abbrev mirror : Bcrypt
mirror = record { generate = λ salt plain. some plain; compare_hash = bytes_eq }

abbrev a : Authenticator
a = record { secure = true }

abbrev secret : Bytes
secret = bytes "pw"

abbrev ip : Bytes
ip = bytes "10.0.0.1"

-- Two failures of three are counted since 10.
abbrev state : AuthState
state = record {
  limiter = record (new_rate_limiter 3 60) {
    entries = (ip, record { count = 2; window_start = 10 }) ∷ [];
  };
  sessions = new_session_store 100;
}

abbrev at : ℕ → Bytes → Attempt
at t password = record {
  ip = ip;
  password = some password;
  random = some (0 ∷ 16 ∷ 131 ∷ []);
  times = record { checked = t; counted = t; created = t; sent = t };
}

-- Two requests pass the limiter before either is compared, and then a third comes.
abbrev wrong : List LoginStep
wrong =
    arrives (at 20 (bytes "a"))
    ∷ arrives (at 30 (bytes "b"))
    ∷ compares 1
    ∷ compares 0
    ∷ arrives (at 40 (bytes "c"))
    ∷ []

counted : Assoc.lookup ip state.limiter.entries ≡ some (record { count = 2; window_start = 10 })
unfolding Assoc.lookup bytes_discrete ℕ_discrete
counted = refl

abbrev idle : Running
idle = record { pending = []; state = state }

-- Both of the two are compared, so that the limit of three is passed by one.
passed_limit : 2 + guesses mirror a secret wrong idle ≡ 4
unfolding guesses step take_out allowed current fail verify_password Assoc.lookup Assoc.insert
    bytes_discrete ℕ_discrete
passed_limit = refl

accepted : (login mirror a secret (at 20 secret) state).0.status ≡ 200
unfolding login allowed current reset fail verify_password Session.create random_token fill
    url_encode url_digit Assoc.lookup Assoc.insert Assoc.erase bytes_discrete ℕ_discrete
accepted = refl

login-validate_example :
    (password : Bytes) × (sess : Session) × (some secret ≡ some password)
    × (verify_password mirror secret password ≡ true)
    × ((login mirror a secret (at 20 secret) state).0.cookie ≡ some (set_cookie a 20 sess))
    × ((Session.validate sess.token 120 (login mirror a secret (at 20 secret) state).1.sessions).0
        ≡ not (ltb (20 + 100) 120))
login-validate_example =
    login-validate mirror a secret (at 20 secret) state 0 (16 ∷ 131 ∷ []) 120 accepted refl
