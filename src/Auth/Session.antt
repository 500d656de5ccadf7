-- ===== src/Auth/Session.antt =====
-- `SessionStore` of internal/auth/session.go. Instants and durations are nanoseconds; each method
-- takes the clock reading of its call, and runs whole, as under the store's lock.
pub mod History
pub mod Collector
pub mod Issued
use mdtree.Prelude.{
  ℕ, ◌+◌, Bytes, bytes_eq, Bool, true, false, List, [], ◌∷◌, Option, none, some, length, ltb,
  if◌then◌else◌,
}
use mdtree.Prelude.Assoc
use mdtree.Prelude.Assoc.{Assoc}
use mdtree.Auth.Token.{random_token}

pub record Session : Type 0 where
  pub token : Bytes
  pub created : ℕ
  pub expires : ℕ

pub record SessionStore : Type 0 where
  pub ttl : ℕ
  pub sessions : Assoc Session

abbrev pub new_session_store : ℕ → SessionStore
new_session_store ttl = record { ttl = ttl; sessions = [] }

abbrev pub session_token_bytes : ℕ
session_token_bytes = 32

unfoldable pub create : Option Bytes → ℕ → SessionStore → Option Session × SessionStore
unfolding random_token
create random now s = elim (random_token session_token_bytes random) [
  | none ↦ (none, s)
  | some token ↦
      let sess : Session = record { token = token; created = now; expires = now + s.ttl } in
      (some sess, record s { sessions = Assoc.insert token sess s.sessions })
]

unfoldable pub delete : Bytes → SessionStore → SessionStore
delete token s = record s { sessions = Assoc.erase token s.sessions }

-- `now.After(sess.Expires)`.
abbrev pub expired : ℕ → Session → Bool
expired now sess = ltb sess.expires now

unfoldable pub validate : Bytes → ℕ → SessionStore → Bool × SessionStore
unfolding delete
validate token now s =
    if bytes_eq token [] then (false, s) else elim (Assoc.lookup token s.sessions) [
      | none ↦ (false, s)
      | some sess ↦ if expired now sess then (false, delete token s) else (true, s)
    ]

unfoldable pub count : SessionStore → ℕ
count s = length s.sessions

unfoldable pub drop_expired : ℕ → Assoc Session → Assoc Session
drop_expired now [] = []
drop_expired now ((token, sess) ∷ m) =
    let rest = drop_expired now m in if expired now sess then rest else (token, sess) ∷ rest

unfoldable pub evict_expired : ℕ → SessionStore → SessionStore
unfolding drop_expired
evict_expired now s = record s { sessions = drop_expired now s.sessions }

-- `StartGC`: what the background loop does, tick by tick, until the context is done.
pub data GcEvent : Type 0 where
  tick : ℕ → GcEvent
  done : GcEvent

unfoldable pub run_gc : List GcEvent → SessionStore → SessionStore
unfolding evict_expired
run_gc [] s = s
run_gc (done ∷ es) s = s
run_gc (tick now ∷ es) s = run_gc es (evict_expired now s)
