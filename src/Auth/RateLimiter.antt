-- ===== src/Auth/RateLimiter.antt =====
-- `RateLimiter` of internal/auth/ratelimit.go: a fixed-window count of failures for each key.
pub mod Window
use mdtree.Prelude.{ℕ, ◌+◌, ◌-◌, Bytes, Bool, [], none, some, ltb, if◌then◌else◌}
use mdtree.Prelude.Assoc
use mdtree.Prelude.Assoc.{Assoc}

-- `rlEntry`.
pub record RlEntry : Type 0 where
  pub count : ℕ
  pub window_start : ℕ

pub record RateLimiter : Type 0 where
  pub limit : ℕ
  pub window : ℕ
  pub entries : Assoc RlEntry

abbrev pub new_rate_limiter : ℕ → ℕ → RateLimiter
new_rate_limiter limit window = record { limit = limit; window = window; entries = [] }

-- `now.Sub(e.windowStart) > r.window`.
abbrev pub elapsed : ℕ → ℕ → RlEntry → Bool
elapsed window now e = ltb (e.window_start + window) now

abbrev fresh : ℕ → RlEntry
fresh now = record { count = 0; window_start = now }

-- The live entry, and the limiter in which it is stored.
unfoldable pub current : Bytes → ℕ → RateLimiter → RlEntry × RateLimiter
current key now r = elim (Assoc.lookup key r.entries) [
  | none ↦ (fresh now, record r { entries = Assoc.insert key (fresh now) r.entries })
  | some e ↦
      if elapsed r.window now e
      then (fresh now, record r { entries = Assoc.insert key (fresh now) r.entries })
      else (e, r)
]

unfoldable pub allowed : Bytes → ℕ → RateLimiter → Bool × RateLimiter
unfolding current
allowed key now r = let (e, r') = current key now r in (ltb e.count r.limit, r')

-- The count is behind a pointer: it changes in the map.
unfoldable pub fail : Bytes → ℕ → RateLimiter → RateLimiter
unfolding current
fail key now r =
    let (e, r') = current key now r in
    record r' { entries = Assoc.insert key (record e { count = e.count + 1 }) r'.entries }

unfoldable pub reset : Bytes → RateLimiter → RateLimiter
reset key r = record r { entries = Assoc.erase key r.entries }

-- `-` stops at 0, as the method does.
unfoldable pub retry_after : Bytes → ℕ → RateLimiter → ℕ
retry_after key now r = elim (Assoc.lookup key r.entries) [
  | none ↦ 0
  | some e ↦ e.window_start + r.window - now
]
