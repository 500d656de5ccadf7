-- ===== src/Api/Login/Steps.antt =====
-- `Login` of internal/api/auth.go as the two steps between which other requests run: `Allowed`, and
-- the comparison of the password with what follows it. The limiter's methods hold its lock, the
-- handler holds none. What follows a wrong password is the one call of `Fail`.
use mdtree.Prelude.{
  ℕ, zero, suc, Bytes, ◌≡◌, refl, true, false, List, [], ◌∷◌, Option, none, some, ◌==◌, Bool,
  if◌then◌else◌,
}
use mdtree.Auth.Token.{Bcrypt}
use mdtree.Auth.RateLimiter.{RateLimiter, allowed}
use mdtree.Auth.Cookie.{Authenticator}
use mdtree.Api.Login.{AuthState, Reply, Attempt, plain_reply, login, compare_password}

pub data LoginStep : Type 0 where
  arrives : Attempt → LoginStep
  compares : ℕ → LoginStep

-- The requests that passed `Allowed` and are not compared yet, and the state they share.
pub record Running : Type 0 where
  pub pending : List Attempt
  pub state : AuthState

-- The request at a place, and the others.
unfoldable pub take_out : ℕ → List Attempt → Option (Attempt × List Attempt)
take_out i [] = none
take_out zero (r ∷ rs) = some (r, rs)
take_out (suc i) (r ∷ rs) = elim (take_out i rs) [ none ↦ none | some (q, qs) ↦ some (q, r ∷ qs) ]

module _ (b : Bcrypt) (a : Authenticator) (hash : Bytes) where
  abbrev pub after_allowed : Attempt → Running → Bool × AuthState → Option Reply × Running
  after_allowed r m (true, s) = (none, record { pending = r ∷ m.pending; state = s })
  after_allowed r m (false, s) = (some (plain_reply 429), record m { state = s })

  abbrev pub compared : Attempt → List Attempt → AuthState → Option Reply × Running
  compared r rest s =
      let (reply, s') = compare_password b a hash r r.password s in
      (some reply, record { pending = rest; state = s' })

  abbrev pub compared_one : Running → Option (Attempt × List Attempt) → Option Reply × Running
  compared_one m none = (none, m)
  compared_one m (some (r, rest)) = compared r rest m.state

  unfoldable pub step : LoginStep → Running → Option Reply × Running
  step (arrives r) m =
      let (may_try, limiter) = allowed r.ip r.times.checked m.state.limiter in
      after_allowed r m (may_try, record m.state { limiter = limiter })
  step (compares i) m = compared_one m (take_out i m.pending)

  abbrev pub is_wrong_password : Option Reply → Bool
  is_wrong_password none = false
  is_wrong_password (some reply) = reply.status == 401

  -- How many passwords are compared, and are wrong, in a run of steps.
  unfoldable pub guesses : List LoginStep → Running → ℕ
  guesses [] m = 0
  guesses (x ∷ xs) m =
      let (reply, m') = step x m in
      let later = guesses xs m' in if is_wrong_password reply then suc later else later

  abbrev whole_login : Attempt → Running → Option Reply × Running → Option Reply × Running
  whole_login r m (none, m') = step (compares 0) m'
  whole_login r m (some reply, m') = (some reply, m')

  -- A request whose steps follow each other is handled as `login` handles it.
  pub login-step :
      (r : Attempt) (m : Running)
      → whole_login r m (step (arrives r) m)
        ≡ (some (login b a hash r m.state).0, record m { state = (login b a hash r m.state).1 })
  unfolding login step take_out
  login-step r m = by_answer (allowed r.ip r.times.checked m.state.limiter)
    where
      answer : Bool × RateLimiter → Reply × AuthState
      answer (may_try, limiter) =
          if may_try
          then compare_password b a hash r r.password (record m.state { limiter = limiter })
          else (plain_reply 429, record m.state { limiter = limiter })

      by_answer :
          (x : Bool × RateLimiter)
          → whole_login r m (after_allowed r m (x.0, record m.state { limiter = x.1 }))
            ≡ (some (answer x).0, record m { state = (answer x).1 })
      by_answer (true, limiter) = refl
      by_answer (false, limiter) = refl
