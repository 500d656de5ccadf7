-- ===== src/Api/Login/Counted.antt =====
-- What is known between the steps of the logins of one client whose window is open.
use mdtree.Prelude.{
  length, ◌-◌, zero, ℕ, suc, ◌+◌, ◌≤◌, Bytes, ◌≡◌, ◌⊎◌, inl, inr, refl, ap, Bool, true, not, List,
  [], ◌∷◌, Option, none, some, arith, All, ltb, if◌then◌else◌,
}
use mdtree.Prelude.Assoc
use mdtree.Prelude.Assoc.{lookup-insert}
use mdtree.Auth.Token.{Bcrypt, verify_password}
use mdtree.Auth.RateLimiter.{RateLimiter, current, allowed, fail}
use mdtree.Auth.Cookie.{Authenticator}
use mdtree.Api.Login.{AuthState, Reply, Attempt, plain_reply, compare_password}
use mdtree.Api.Login.Steps.{
  LoginStep, arrives, compares, Running, take_out, after_allowed, step, is_wrong_password, guesses,
}

-- An entry that is live at a time answers, and stays.
allowed-entry :
    (key : Bytes) (now n start : ℕ) (r : RateLimiter)
    → Assoc.lookup key r.entries ≡ some (record { count = n; window_start = start })
    → now ≤ start + r.window
    → allowed key now r ≡ (ltb n r.limit, r)
unfolding allowed current
allowed-entry key now n start r h p = ground arith

abbrev pub is_wrong : Bcrypt → Bytes → Option Bytes → Bool
is_wrong b hash none = true
is_wrong b hash (some password) = not (verify_password b hash password)

-- A request of one client with a wrong password, within the window.
pub record IsGuess (b : Bcrypt) (hash key : Bytes) (end : ℕ) (r : Attempt) : Type 0 where
  pub same_ip : r.ip ≡ key
  pub wrong : is_wrong b hash r.password ≡ true
  pub checked_within : r.times.checked ≤ end
  pub counted_within : r.times.counted ≤ end

pub room_for :
    (n l limit c p : ℕ) → ltb n l ≡ true → l ≡ limit → suc p ≤ c → n + suc p ≤ limit + (c - 1)
room_for n l limit c p h e q = ground arith

-- The steps of such requests.
abbrev pub IsGuessStep : Bcrypt → Bytes → Bytes → ℕ → LoginStep → Type 0
IsGuessStep b hash key end (arrives r) = IsGuess b hash key end r
IsGuessStep b hash key end (compares i) = Unit

module _ (b : Bcrypt) (a : Authenticator) (hash : Bytes) where
  -- No more requests than `c` are ever between their two steps.
  abbrev pub AtMost : ℕ → List LoginStep → Running → Type 0
  AtMost c [] m = Unit
  AtMost c (x ∷ xs) m =
      (length (step b a hash x m).1.pending ≤ c) × AtMost c xs (step b a hash x m).1

  -- What is known along the way: the entry of the client, and how many may still be wrong.
  pub record Open (key : Bytes) (end c limit n : ℕ) (m : Running) : Type 0 where
    pub start : ℕ
    pub entry :
        Assoc.lookup key m.state.limiter.entries ≡ some (record { count = n; window_start = start })
    pub ends : start + m.state.limiter.window ≡ end
    pub limited : m.state.limiter.limit ≡ limit
    pub guessing : All (IsGuess b hash key end) m.pending
    pub room : n + length m.pending ≤ limit + (c - 1)

  pub wrong_password :
      (r : Attempt) (password : Option Bytes) (s : AuthState)
      → is_wrong b hash password ≡ true
      → (compare_password b a hash r password s ≡ (plain_reply 400, s))
        ⊎ (compare_password b a hash r password s
            ≡ (plain_reply 401, record s { limiter = fail r.ip r.times.counted s.limiter }))
  wrong_password r none s w = inl refl
  wrong_password r (some password) s w = inr (ground arith)

  pub arrives-eq :
      (r : Attempt) (m : Running) (n start : ℕ)
      → Assoc.lookup r.ip m.state.limiter.entries
        ≡ some (record { count = n; window_start = start })
      → r.times.checked ≤ start + m.state.limiter.window
      → step b a hash (arrives r) m
        ≡ after_allowed b a hash r m (ltb n m.state.limiter.limit, m.state)
  unfolding step
  arrives-eq r m n start h p =
      ap (λ x. after_allowed b a hash r m (x.0, record m.state { limiter = x.1 }))
        (allowed-entry r.ip r.times.checked n start m.state.limiter h p)

  -- What taking a request out leaves.
  pub taken :
      (P : Attempt → Type 0) (i : ℕ) (rs : List Attempt)
      → (take_out i rs ≡ none)
        ⊎ ((r : Attempt) × (rest : List Attempt) × (take_out i rs ≡ some (r, rest))
            × (length rs ≡ suc (length rest))
            × (All P rs → P r × All P rest))
  unfolding take_out
  taken P zero [] = inl refl
  taken P (suc i) [] = inl refl
  taken P zero (r ∷ rs) = inr (r, rs, refl, refl, λ h. h)
  taken P (suc i) (r ∷ rs) = elim (taken P i rs) [
    | inl q ↦ inl (ground arith)
    | inr (q, rest, e, len, f) ↦
        inr (q, r ∷ rest, ground arith, ap suc len, λ h. ((f h.1).0, (h.0, (f h.1).1)))
  ]

  pub guesses_after :
      (x : LoginStep) (xs : List LoginStep) (m : Running) (y : Option Reply × Running)
      → step b a hash x m ≡ y
      → guesses b a hash (x ∷ xs) m ≡ (
          if is_wrong_password b a hash y.0
          then suc (guesses b a hash xs y.1)
          else guesses b a hash xs y.1)
  unfolding guesses
  guesses_after x xs m y e =
      ap
        (λ y.
          if is_wrong_password b a hash y.0
          then suc (guesses b a hash xs y.1)
          else guesses b a hash xs y.1)
        e
