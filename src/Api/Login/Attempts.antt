-- ===== src/Api/Login/Attempts.antt =====
-- How many passwords can be tried within a window.
use mdtree.Prelude.{◌-◌, ℕ, ◌+◌, ◌≤◌, Bytes, List, All}
use mdtree.Prelude.Assoc
use mdtree.Prelude.Assoc.{lookup-insert}
use mdtree.Auth.Token.{Bcrypt}
use mdtree.Auth.Cookie.{Authenticator}
use mdtree.Api.Login.Steps.{LoginStep, Running, guesses}
use mdtree.Api.Login.Counted.{AtMost, Open, IsGuessStep}

module _ (b : Bcrypt) (a : Authenticator) (hash : Bytes) where
  module _ (key : Bytes) (end c limit : ℕ) where
    abbrev Bounded : List LoginStep → Type 0
    Bounded xs =
        (n : ℕ) (m : Running)
        → Open b a hash key end c limit n m
        → All (IsGuessStep b hash key end) xs
        → AtMost b a hash c xs m
        → n + guesses b a hash xs m ≤ limit + (c - 1)
