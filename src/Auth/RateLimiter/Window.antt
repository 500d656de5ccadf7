-- ===== src/Auth/RateLimiter/Window.antt =====
-- The rate limit over a window: how failures add up, when a key is free again, and that keys do not
-- disturb one another.
use mathlib.Core.Logic.{ite}
use mathlib.Core.Path.{subst}
use mdtree.Prelude.{
  ℕ, ◌+◌, ◌≤◌, ◌<◌, Bytes, bytes_discrete, ◌≡◌, ◌≢◌, ◌∙◌, sym, ap, refl, List, [], ◌∷◌, Option,
  none, some, if◌then◌else◌, arith, All, length, ltb,
}
use mdtree.Prelude.Assoc
use mdtree.Prelude.Assoc.{lookup-insert, lookup-erase}
use mdtree.Auth.RateLimiter.{
  RlEntry, RateLimiter, elapsed, current, allowed, fail, reset, retry_after,
}

-- Failures at the given times, in this order.
abbrev pub fails : Bytes → List ℕ → RateLimiter → RateLimiter
fails key [] r = r
fails key (t ∷ ts) r = fails key ts (fail key t r)

-- The entry that a call at `now` works with.
abbrev live : ℕ → ℕ → Option RlEntry → RlEntry
live now window none = record { count = 0; window_start = now }
live now window (some e) =
    if elapsed window now e then record { count = 0; window_start = now } else e

module _ (key : Bytes) (now : ℕ) (r : RateLimiter) where
  current-live : (current key now r).0 ≡ live now r.window (Assoc.lookup key r.entries)
  unfolding current
  current-live = ground arith

  window-current : (current key now r).1.window ≡ r.window
  unfolding current
  window-current = ground arith

  limit-current : (current key now r).1.limit ≡ r.limit
  unfolding current
  limit-current = ground arith

  lookup-current :
      (j : Bytes)
      → Assoc.lookup j (current key now r).1.entries
        ≡ ite
            (bytes_discrete key j)
            (some (live now r.window (Assoc.lookup key r.entries)))
            (Assoc.lookup j r.entries)
  unfolding current
  lookup-current j =
      ground (arith, lookup-insert key j (record { count = 0; window_start = now }) r.entries)

  pub window-fail : (fail key now r).window ≡ r.window
  unfolding fail
  window-fail = window-current

  pub limit-fail : (fail key now r).limit ≡ r.limit
  unfolding fail
  limit-fail = limit-current

  lookup-fail :
      (j : Bytes)
      → Assoc.lookup j (fail key now r).entries
        ≡ ite
            (bytes_discrete key j)
            (some (
              let e = live now r.window (Assoc.lookup key r.entries) in
              record { count = e.count + 1; window_start = e.window_start }))
            (Assoc.lookup j r.entries)
  unfolding fail
  lookup-fail j = ground (
    arith,
    current-live,
    lookup-current j,
    lookup-insert key j
        (record {
          count = (current key now r).0.count + 1;
          window_start = (current key now r).0.window_start;
        })
        (current key now r).1.entries,
  )

  allowed-live :
      (allowed key now r).0 ≡ ltb (live now r.window (Assoc.lookup key r.entries)).count r.limit
  unfolding allowed
  allowed-live = ground (arith, current-live, limit-current)

  allowed-current : (allowed key now r).1 ≡ (current key now r).1
  unfolding allowed
  allowed-current = refl

same_answer :
    (j : Bytes) (later : ℕ) (r r' : RateLimiter)
    → r'.window ≡ r.window
    → r'.limit ≡ r.limit
    → Assoc.lookup j r'.entries ≡ Assoc.lookup j r.entries
    → (allowed j later r').0 ≡ (allowed j later r).0
same_answer j later r r' w l e = cc (allowed-live j later r', allowed-live j later r, w, l, e)

-- A call for one key leaves the answer for every other key as it was.
pub allowed_other :
    (key j : Bytes) (now later : ℕ) (r : RateLimiter)
    → key ≢ j
    → ((allowed j later (fail key now r)).0 ≡ (allowed j later r).0)
      × ((allowed j later (allowed key now r).1).0 ≡ (allowed j later r).0)
      × ((allowed j later (reset key r)).0 ≡ (allowed j later r).0)
unfolding reset
allowed_other key j now later r h = (
  same_answer j later r (fail key now r) (window-fail key now r) (limit-fail key now r)
      (ground (arith, lookup-fail key now r j)),
  rw allowed-current (
      same_answer j later r (current key now r).1 (window-current key now r)
        (limit-current key now r) (ground (arith, lookup-current key now r j))),
  same_answer j later r (reset key r) refl refl (ground (arith, lookup-erase key j r.entries)),
)

-- All times lie in the window that starts at `start`.
abbrev pub InWindow : ℕ → ℕ → List ℕ → Type 0
InWindow start window = All (λ t. t ≤ start + window)

pub counted_once :
    (r : RateLimiter) (key : Bytes) (t start n : ℕ)
    → Assoc.lookup key r.entries ≡ some (record { count = n; window_start = start })
    → t ≤ start + r.window
    → Assoc.lookup key (fail key t r).entries
      ≡ some (record { count = n + 1; window_start = start })
counted_once r key t start n h p = lookup-fail key t r key ∙ rw h (ground arith)

counted_first :
    (r : RateLimiter) (key : Bytes) (start : ℕ)
    → Assoc.lookup key r.entries ≡ none
    → Assoc.lookup key (fail key start r).entries
      ≡ some (record { count = 1; window_start = start })
counted_first r key start h = lookup-fail key start r key ∙ rw h (ground arith)

fails_count :
    (r : RateLimiter) (key : Bytes) (start n : ℕ) (ts : List ℕ)
    → Assoc.lookup key r.entries ≡ some (record { count = n; window_start = start })
    → InWindow start r.window ts
    → (Assoc.lookup key (fails key ts r).entries
        ≡ some (record { count = n + length ts; window_start = start }))
      × ((fails key ts r).window ≡ r.window)
      × ((fails key ts r).limit ≡ r.limit)
fails_count r key start n [] h p = (ground arith, refl, refl)
fails_count r key start n (t ∷ ts) h p =
    let (found, w, l) =
      fails_count (fail key t r) key start (n + 1) ts (counted_once r key t start n h p.0)
        (subst (λ w. InWindow start w ts) (sym (window-fail key t r)) p.1) in
    (
      found ∙ ap (λ c. some (record { count = c; window_start = start })) (omega arith),
      w ∙ window-fail key t r,
      l ∙ limit-fail key t r,
    )

blocked_at :
    (key : Bytes) (now start : ℕ) (ts : List ℕ) (r r' : RateLimiter)
    → Assoc.lookup key r'.entries ≡ some (record { count = 1 + length ts; window_start = start })
    → r'.window ≡ r.window
    → r'.limit ≡ r.limit
    → now ≤ start + r.window
    → ltb (live now r'.window (Assoc.lookup key r'.entries)).count r'.limit
      ≡ ltb (length (start ∷ ts)) r.limit
blocked_at key now start ts r e w l q = ground arith

-- From a key without a record, failures at `start` and at further times of that window leave the
-- key open, throughout the window, exactly while they number fewer than the limit.
pub allowed-fails :
    (r : RateLimiter) (key : Bytes) (start now : ℕ) (ts : List ℕ)
    → Assoc.lookup key r.entries ≡ none
    → InWindow start r.window ts
    → now ≤ start + r.window
    → (allowed key now (fails key (start ∷ ts) r)).0 ≡ ltb (length (start ∷ ts)) r.limit
allowed-fails r key start now ts h p q =
    let counted =
      fails_count (fail key start r) key start 1 ts (counted_first r key start h)
        (subst (λ w. InWindow start w ts) (sym (window-fail key start r)) p) in
    allowed-live key now (fails key (start ∷ ts) r)
    ∙ blocked_at key now start ts r (fails key (start ∷ ts) r) counted.0
        (counted.1 ∙ window-fail key start r) (counted.2 ∙ limit-fail key start r) q

-- When `RetryAfter` has passed, and one nanosecond more, a key is judged afresh.
allowed-retry_after :
    (r : RateLimiter) (key : Bytes) (now later : ℕ)
    → now + retry_after key now r < later
    → (allowed key later r).0 ≡ ltb 0 r.limit
unfolding retry_after
allowed-retry_after r key now later h = allowed-live key later r ∙ ground arith
